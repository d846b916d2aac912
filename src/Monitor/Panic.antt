-- ===== src/Monitor/Panic.antt =====
-- printk.c: what a panic leaves on the monitor.
use native.Mathlib.Nat.{mod-eq_of_lt}
use brunix.Prelude.{
  ℕ, ◌-◌, ◌%◌, ◌^◌, ◌<◌, ◌≡◌, refl, arith, leb, ◌==◌, false, none, some, List, [], ◌∷◌, ◌++◌,
  length, codes, c_string,
}
use brunix.Itoa.Numeral.{numeral}
use brunix.Printk.{Arg, next_arg}
use brunix.Monitor.{Library, pointer_to, plain, halt, panic}
use brunix.Monitor.Render.{decimal_text, render, IsPlain, put_str, IsLibrary}
use brunix.Monitor.Prints.{printk-put_str}

decimal_text-small : (w : ℕ) → w < 2 ^ 31 → decimal_text 0 w ≡ some (numeral 10 w ++ numeral 10 w)
decimal_text-small w h =
    let here : leb (2 ^ 31) w ≡ false = ground arith in
    let other : (w == 2 ^ 31) ≡ false = ground arith in
    let nothing : 0 - length (numeral 10 w) ≡ 0 = omega arith in rw (other, here, nothing) refl

panic_args : List ℕ → ℕ → List ℕ → List Arg
panic_args file line msg =
    pointer_to file ∷ record { word = line; target = none } ∷ pointer_to msg ∷ []

render_panic :
    (file msg : List ℕ) (line : ℕ)
    → line < 2 ^ 31
    → render plain (codes "PANIC: %s:%d : %s\n") (panic_args file line msg)
      ≡ some (
          codes "PANIC: "
          ++ (c_string file
              ++ (codes ":"
                  ++ ((numeral 10 line ++ numeral 10 line)
                      ++ (codes " : " ++ (c_string msg ++ codes "\n"))))))
unfolding render next_arg panic_args
render_panic file msg line h =
    let same : line % 2 ^ 32 ≡ line = mod-eq_of_lt (omega arith) in
    rw (same, decimal_text-small line h) refl

-- For a file and a message without '%' and a line below 2 ^ 31, `panic` returns to the instruction that
-- halts with the file, the line and the message on the monitor, the line's digits twice.
panic_lem :
    {S : Type 0} (lib : Library S)
    → IsLibrary lib
    → (file msg : List ℕ) (line : ℕ) (s : S) → IsPlain file
    → IsPlain msg
    → line < 2 ^ 31
    → let twice = numeral 10 line ++ numeral 10 line in
      let text =
        codes "PANIC: "
        ++ (c_string file
            ++ (codes ":" ++ (twice ++ (codes " : " ++ (c_string msg ++ codes "\n"))))) in
      panic lib file line msg s ≡ some (put_str lib (codes "System halted.\n") (put_str lib text s))
unfolding panic panic_args
panic_lem lib laws file msg line s hf hm h =
    let first =
      printk-put_str lib laws 0 (codes "PANIC: %s:%d : %s\n") (panic_args file line msg) s
        (hf, (tt, (hm, tt))) in
    rw (first, render_panic file msg line h)
      (unfold halt render in printk-put_str lib laws 0 (codes "System halted.\n") [] _ tt)
