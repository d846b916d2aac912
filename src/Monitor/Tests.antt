-- ===== src/Monitor/Tests.antt =====
-- The older `printk` with a library of its own: a monitor that keeps what it is given, newest first.
use brunix.Prelude.{ℕ, suc, ◌-◌, ◌^◌, ◌≡◌, refl, ap, ◌∙◌, arith, none, some, ◌>>=◌}
use brunix.Prelude.{
  List, [], ◌∷◌, ◌++◌, reverse, length, replicate, drop, codes, c_string, c_string-append,
  length-drop,
}
use brunix.Itoa.{store}
use brunix.Itoa.Numeral.{numeral, low_digits, digit}
use brunix.Printk.{Arg, next_arg}
use brunix.Monitor.{Library, plain, pad_byte, pad, pad_to, decimal, directive, turn, loop, printk}
use brunix.Monitor.Depth.{printk_depth}
use brunix.Monitor.Render.{IsLibrary, put_str, render}
use brunix.Monitor.Prints.{printk-put_str}

abbrev keep : List ℕ → List ℕ → List ℕ
keep [] s = s
keep (c ∷ t) s = keep t (c ∷ s)

abbrev screen : Library (List ℕ)
screen = record {
  monitor_put = λ c s. c ∷ s;
  monitor_write = λ str s. keep (c_string str) s;
  itoa = λ buf n b. numeral b n ++ (0 ∷ drop (suc (length (numeral b n))) buf);
  strlen = λ str. length (c_string str);
  stack = replicate 16 7;
}

keep-put_str : (t s : List ℕ) → keep t s ≡ put_str screen t s
unfolding put_str
keep-put_str [] s = refl
keep-put_str (c ∷ t) s = keep-put_str t (c ∷ s)

screen-IsLibrary : IsLibrary screen
screen-IsLibrary = record {
  itoa_leaves = λ buf n b h. (
    drop (suc (length (numeral b n))) buf,
    refl,
    omega (arith, length-drop (suc (length (numeral b n))) buf),
  );
  strlen_counts = λ t rest h. ap length (c_string-append t rest h);
  monitor_write_puts =
      λ t rest s h. ap (λ u. keep u s) (c_string-append t rest h) ∙ keep-put_str t s;
  stack_size = refl;
}

abbrev minus_seven : Arg
minus_seven = record { word = 2 ^ 32 - 7; target = none }

-- "%3d" of -7 prints the digits, and then the padded number.
shown_twice : printk screen 3 (codes "%3d!") (minus_seven ∷ []) [] ≡ some (reverse (codes "7-007!"))
unfolding printk loop turn directive decimal pad_to pad pad_byte store next_arg numeral low_digits
    digit
shown_twice = refl

-- A format that ends behind a '%' is read past its end.
unfinished : printk screen 3 (codes "100%") [] [] ≡ none
unfolding printk loop turn directive
unfinished = refl

printk_depth_example :
    printk screen 7 (codes "%3d!") (minus_seven ∷ []) []
    ≡ printk screen 3 (codes "%3d!") (minus_seven ∷ []) []
printk_depth_example = printk_depth screen 4 (codes "%3d!") (minus_seven ∷ []) []

printk-put_str_example :
    printk screen 4 (codes "%3d!") (minus_seven ∷ []) []
    ≡ (render plain (codes "%3d!") (minus_seven ∷ []) >>= λ t. some (put_str screen t []))
printk-put_str_example =
    printk-put_str screen screen-IsLibrary 1 (codes "%3d!") (minus_seven ∷ []) [] (tt, tt)
