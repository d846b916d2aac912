-- ===== src/Monitor/Plain.antt =====
-- printk.c: texts without a conversion.
use brunix.Prelude.{ℕ, zero, suc, ◌-◌, ◌≡◌, refl, arith, ◌==◌, false, some}
use brunix.Prelude.{
  List, [], ◌∷◌, ◌++◌, length, replicate, codes, c_string, NoNul, NoNul-append, All-append,
}
use brunix.Itoa.Numeral.{NoPercent}
use brunix.Printk.{Arg, next_arg}
use brunix.Monitor.{Library, plain, pointer_to, Nested, directive, turn, loop, printk}
use brunix.Monitor.Render.{zero_fill, IsPlain, put_str}

pub suc_test : (c : ℕ) → (suc c == 0) ≡ false
suc_test c = ground arith

module _ {S : Type 0} (lib : Library S) where
  -- A format without conversions is put as it is, up to its first NUL.
  pub loop-IsPlain :
      (nested : Nested lib) (str : List ℕ) (args : List Arg) (buf : List ℕ) (s : S)
      → IsPlain str
      → loop lib nested plain str args buf s ≡ some (put_str lib (c_string str) s)
  unfolding loop turn put_str
  loop-IsPlain nested [] args buf s h = refl
  loop-IsPlain nested (zero ∷ str) args buf s h = refl
  loop-IsPlain nested (suc c ∷ str) args buf s h =
      rw (suc_test c, h.0, loop) (loop-IsPlain nested str args buf (lib.monitor_put (suc c) s) h.1)

  pub printk-IsPlain :
      (d : ℕ) (str : List ℕ) (args : List Arg) (s : S)
      → IsPlain str
      → printk lib (suc d) str args s ≡ some (put_str lib (c_string str) s)
  unfolding printk
  printk-IsPlain d str args s h = loop-IsPlain (printk lib d) str args lib.stack s h

  pub printk_minus :
      (d : ℕ) (str : List ℕ) (s : S)
      → IsPlain str
      → printk lib (suc (suc d)) (codes "-%s") (pointer_to str ∷ []) s
        ≡ some (put_str lib (b'-' ∷ c_string str) s)
  unfolding printk loop turn directive next_arg put_str
  printk_minus d str s h = rw (printk-IsPlain d str [] (lib.monitor_put b'-' s) h) refl

  pub printk_hex :
      (d : ℕ) (str : List ℕ) (s : S)
      → IsPlain str
      → printk lib (suc (suc d)) (codes "0x%s") (pointer_to str ∷ []) s
        ≡ some (put_str lib (codes "0x" ++ c_string str) s)
  unfolding printk loop turn directive next_arg put_str
  printk_hex d str s h =
      rw (printk-IsPlain d str [] (lib.monitor_put b'x' (lib.monitor_put b'0' s)) h) refl

  pub put_str-append :
      (t t' : List ℕ) (s : S) → put_str lib (t ++ t') s ≡ put_str lib t' (put_str lib t s)
  unfolding put_str
  put_str-append [] t' s = refl
  put_str-append (c ∷ t) t' s = put_str-append t t' (lib.monitor_put c s)

pub NoPercent-IsPlain : (t rest : List ℕ) → NoPercent t → IsPlain (t ++ (0 ∷ rest))
NoPercent-IsPlain [] rest h = tt
NoPercent-IsPlain (zero ∷ t) rest h = tt
NoPercent-IsPlain (suc c ∷ t) rest h = (h.0, NoPercent-IsPlain t rest h.1)

pub NoNul-zeros : (n : ℕ) → NoNul (replicate n b'0')
NoNul-zeros zero = tt
NoNul-zeros (suc n) = NoNul-zeros n

pub NoPercent-zeros : (n : ℕ) → NoPercent (replicate n b'0')
NoPercent-zeros zero = tt
NoPercent-zeros (suc n) = (refl, NoPercent-zeros n)

pub NoNul-zero_fill : (size : ℕ) (t : List ℕ) → NoNul t → NoNul (zero_fill size t)
NoNul-zero_fill size t h =
    NoNul-append (replicate (size - length t) b'0') t (NoNul-zeros (size - length t)) h

pub NoPercent-zero_fill : (size : ℕ) (t : List ℕ) → NoPercent t → NoPercent (zero_fill size t)
NoPercent-zero_fill size t h =
    All-append (λ c. (c == b'%') ≡ false) (replicate (size - length t) b'0') t
      (NoPercent-zeros (size - length t)) h
