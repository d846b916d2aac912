-- ===== src/Monitor/Depth.antt =====
-- printk.c: how deep `printk` calls itself.
use brunix.Prelude.{
  ℕ, suc, ◌-◌, ◌^◌, ◌≡◌, refl, ap, ◌∙◌, arith, u32, leb, ◌==◌, if◌then◌else◌, Option, none, some,
  ◌>>=◌, List, [], ◌∷◌, codes,
}
use brunix.Printk.{Arg, next_arg}
use brunix.Monitor.{
  Library, Place, plain, percent, sized, Turn, next, returned, pointer_to, pad_to, Nested, decimal,
  unsigned, directive, turn, loop, printk,
}

module _ {S : Type 0} (lib : Library S) where
  abbrev Calls : Type 0
  Calls = Nested lib

  abbrev go_on : Calls → List ℕ → Turn S → Option S
  go_on nested fmt t = elim t [
    | returned s ↦ some s
    | next p args buf s ↦ loop lib nested p fmt args buf s
  ]

  -- A turn that leaves no arguments.
  abbrev NoArgs : Option (Turn S) → Type 0
  NoArgs none = Unit {0}
  NoArgs (some (returned s)) = Unit {0}
  NoArgs (some (next p args buf s)) = args ≡ []

  turn-NoArgs :
      (nested : Calls) (p : Place) (c : ℕ) (buf : List ℕ) (s : S)
      → NoArgs (turn lib nested p c [] buf s)
  unfolding turn directive
  turn-NoArgs nested plain c buf s = ground arith
  turn-NoArgs nested percent c buf s = ground arith
  turn-NoArgs nested (sized n) c buf s = ground arith

  -- Without arguments no conversion calls `printk`.
  turn_idle :
      (n m : Calls) (p : Place) (c : ℕ) (buf : List ℕ) (s : S)
      → turn lib n p c [] buf s ≡ turn lib m p c [] buf s
  unfolding turn directive
  turn_idle n m plain c buf s = refl
  turn_idle n m percent c buf s = ground arith
  turn_idle n m (sized k) c buf s = ground arith

  go_on_idle :
      (n m : Calls) (fmt : List ℕ) (t : Option (Turn S))
      → NoArgs t
      → ((p : Place) (buf : List ℕ) (s : S) → loop lib n p fmt [] buf s ≡ loop lib m p fmt [] buf s)
      → (t >>= go_on n fmt) ≡ (t >>= go_on m fmt)
  go_on_idle n m fmt none h ih = refl
  go_on_idle n m fmt (some (returned s)) h ih = refl
  go_on_idle n m fmt (some (next p args buf s)) h ih = rw h (ih p buf s)

  loop_idle :
      (n m : Calls) (p : Place) (fmt buf : List ℕ) (s : S)
      → loop lib n p fmt [] buf s ≡ loop lib m p fmt [] buf s
  unfolding loop
  loop_idle n m p [] buf s = refl
  loop_idle n m p (c ∷ fmt) buf s =
      ap (λ t. t >>= go_on n fmt) (turn_idle n m p c buf s)
      ∙ go_on_idle n m fmt (turn lib m p c [] buf s) (turn-NoArgs m p c buf s)
          (λ p buf s. loop_idle n m p fmt buf s)

  -- A call without arguments is the same at every depth but 0.
  printk_idle :
      (d e : ℕ) (str : List ℕ) (s : S) → printk lib (suc d) str [] s ≡ printk lib (suc e) str [] s
  unfolding printk
  printk_idle d e str s = loop_idle (printk lib d) (printk lib e) plain str lib.stack s

  -- Two ways to run the calls that `printk` makes, with one result.
  record Agree (n m : Calls) : Type 0 where
    bare : (str : List ℕ) (s : S) → n str [] s ≡ m str [] s
    minus :
        (str : List ℕ) (s : S)
        → n (codes "-%s") (pointer_to str ∷ []) s ≡ m (codes "-%s") (pointer_to str ∷ []) s
    hex :
        (str : List ℕ) (s : S)
        → n (codes "0x%s") (pointer_to str ∷ []) s ≡ m (codes "0x%s") (pointer_to str ∷ []) s

  bind_ext :
      {A B : Type 0} (o : Option A) (f g : A → Option B)
      → ((a : A) → f a ≡ g a)
      → (o >>= f) ≡ (o >>= g)
  bind_ext none f g h = refl
  bind_ext (some a) f g h = h a

  printk-Agree : (d e : ℕ) → Agree (printk lib (suc (suc d))) (printk lib (suc (suc e)))
  unfolding printk loop turn directive next_arg
  printk-Agree d e = record {
    bare = λ str s. printk_idle (suc d) (suc e) str s;
    minus = λ str s.
        ap (λ o. (o >>= λ s. some (next plain [] lib.stack s)) >>= go_on (printk lib (suc d)) [])
          (printk_idle d e str (lib.monitor_put b'-' s));
    hex = λ str s.
        ap (λ o. (o >>= λ s. some (next plain [] lib.stack s)) >>= go_on (printk lib (suc d)) [])
          (printk_idle d e str (lib.monitor_put b'x' (lib.monitor_put b'0' s)));
  }

  module _ (n m : Calls) (same : Agree n m) where
    decimal_agree :
        (size w : ℕ) (rest : List Arg) (buf : List ℕ) (s : S)
        → decimal lib n size w rest buf s ≡ decimal lib m size w rest buf s
    unfolding decimal
    decimal_agree size w rest buf s =
        let neg = leb (2 ^ 31) w in
        let raw = lib.itoa buf (if neg then 2 ^ 32 - w else w) 10 in
        let s' = lib.monitor_write raw s in
        ap (λ o. if w == 2 ^ 31 then none else o)
          (bind_ext (pad_to lib size raw) _ _ (λ b.
            ap (λ o. o >>= λ s. some (next plain rest b s))
              (ground (arith, same.minus b s', same.bare b s'))))

    unsigned_agree :
        (base size w : ℕ) (rest : List Arg) (buf : List ℕ) (s : S)
        → unsigned lib n base size w rest buf s ≡ unsigned lib m base size w rest buf s
    unfolding unsigned
    unsigned_agree base size w rest buf s =
        bind_ext (pad_to lib size (lib.itoa buf w base)) _ _ (λ b.
          ap (λ o. o >>= λ s. some (next plain rest b s))
            (ground (arith, same.hex b s, same.bare b s)))

    target_agree :
        (o : Option (List ℕ)) (rest : List Arg) (buf : List ℕ) (s : S)
        → (o >>= λ str. n str [] s >>= λ s. some (next plain rest buf s))
          ≡ (o >>= λ str. m str [] s >>= λ s. some (next plain rest buf s))
    target_agree none rest buf s = refl
    target_agree (some str) rest buf s =
        ap (λ o. o >>= λ s. some (next plain rest buf s)) (same.bare str s)

    directive_agree :
        (size c : ℕ) (args : List Arg) (buf : List ℕ) (s : S)
        → directive lib n size c args buf s ≡ directive lib m size c args buf s
    unfolding directive
    directive_agree size c [] buf s = ground arith
    directive_agree size c (a ∷ rest) buf s = ground (
      arith,
      decimal_agree size (u32 a.word) rest buf s,
      unsigned_agree 10 size (u32 a.word) rest buf s,
      unsigned_agree 16 size (u32 a.word) rest buf s,
      unsigned_agree 16 8 (u32 a.word) rest buf s,
      target_agree a.target rest buf s,
    )

    turn_agree :
        (p : Place) (c : ℕ) (args : List Arg) (buf : List ℕ) (s : S)
        → turn lib n p c args buf s ≡ turn lib m p c args buf s
    unfolding turn
    turn_agree plain c args buf s = refl
    turn_agree percent c args buf s = ground (arith, directive_agree 0 c args buf s)
    turn_agree (sized k) c args buf s = directive_agree k c args buf s

    go_on_agree :
        (fmt : List ℕ)
        → ((p : Place) (args : List Arg) (buf : List ℕ) (s : S)
            → loop lib n p fmt args buf s ≡ loop lib m p fmt args buf s)
        → (t : Turn S) → go_on n fmt t ≡ go_on m fmt t
    go_on_agree fmt ih (returned s) = refl
    go_on_agree fmt ih (next p args buf s) = ih p args buf s

    loop_agree :
        (p : Place) (fmt : List ℕ) (args : List Arg) (buf : List ℕ) (s : S)
        → loop lib n p fmt args buf s ≡ loop lib m p fmt args buf s
    unfolding loop
    loop_agree p [] args buf s = refl
    loop_agree p (c ∷ fmt) args buf s =
        ap (λ t. t >>= go_on n fmt) (turn_agree p c args buf s)
        ∙ bind_ext (turn lib m p c args buf s) (go_on n fmt) (go_on m fmt)
            (go_on_agree fmt (λ p args buf s. loop_agree p fmt args buf s))

  -- For every format, arguments and state, and whatever the functions it calls do, `printk` calls
  -- itself three deep at most: any further depth allowed gives the same result, faults included.
  pub printk_depth :
      (d : ℕ) (fmt : List ℕ) (args : List Arg) (s : S)
      → printk lib (suc (suc (suc d))) fmt args s ≡ printk lib 3 fmt args s
  unfolding printk
  printk_depth d fmt args s =
      loop_agree (printk lib (suc (suc d))) (printk lib 2) (printk-Agree d 0) plain fmt args
        lib.stack s
