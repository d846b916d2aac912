-- ===== src/Shared/Merges.antt =====
-- What the screen shows of a text and of the keys that are pressed meanwhile.
use mathlib.Core.Path.{subst}
use brunix.Prelude.{
  ℕ, ◌+◌, ◌%◌, ◌^◌, ◌≡◌, refl, sym, ap, ◌∙◌, arith, u8, some, ◌>>=◌, List, [], ◌∷◌, ◌++◌,
  length-append, All-append,
}
use brunix.Io.{Devices}
use brunix.Vga.{Console, putc}
use brunix.Vga.Cursor.{putc-IsOnScreen}
use brunix.Vga.Terminal.{Terminal, Shows, type, colour_of}
use brunix.Vga.Terminal.Refine.{putc_refines}
use brunix.Vga.Puts.{type_all, colour-putc}
use brunix.Printk.{Arg}
use brunix.Printk.Formatter.{put_all, render}
use brunix.Printk.Render.{Words, printk-render}
use brunix.Printk.Shows.{put_all-Shows}
use brunix.Kernel.{Kernel, running, ◌|>◌, on_console, print}
use brunix.Dispatch.Irq.{Source, clock, keyboard, IsReady, IsKey, Keys, pressed}
use brunix.Dispatch.Serve.{source, handle}
use brunix.Shared.{Turn, byte, arrival, put_byte, put_text}

-- The third list is made of the first two, each in its order.
pub data Merge : List ℕ → List ℕ → List ℕ → Type 0 where
  done : Merge [] [] []
  left : {xs ys zs : List ℕ} (c : ℕ) → Merge xs ys zs → Merge (c ∷ xs) ys (c ∷ zs)
  right : {xs ys zs : List ℕ} (c : ℕ) → Merge xs ys zs → Merge xs (c ∷ ys) (c ∷ zs)

Merge-nil : (xs : List ℕ) → Merge xs [] xs
Merge-nil [] = done
Merge-nil (c ∷ xs) = left c (Merge-nil xs)

Merge-append : (ks : List ℕ) {xs ys zs : List ℕ} → Merge xs ys zs → Merge xs (ks ++ ys) (ks ++ zs)
Merge-append [] m = m
Merge-append (c ∷ ks) m = right c (Merge-append ks m)

type_all-append :
    (colour : ℕ) (xs ys : List ℕ) (t : Terminal)
    → type_all colour (xs ++ ys) t ≡ type_all colour ys (type_all colour xs t)
unfolding type_all
type_all-append colour [] ys t = refl
type_all-append colour (c ∷ xs) ys t = type_all-append colour xs ys (type colour (u8 c) t)

unfoldable pub presses : List Turn → ℕ
presses [] = 0
presses (byte ∷ turns) = presses turns
presses (arrival i ∷ turns) = pressed (source i) + presses turns

unfoldable pub ticks : List Turn → ℕ
ticks [] = 0
ticks (byte ∷ turns) = ticks turns
ticks (arrival i ∷ turns) = ticks turns + (elim (source i) [ clock ↦ 1 | keyboard ↦ 0 ])

-- A text has been put, with keys of the keyboard's typed before, between and behind its bytes.
pub record Merged (text : List ℕ) (count : ℕ) (colour : ℕ) (s : Console) (t : Terminal)
    : Type 0 where
  pub keys : List ℕ
  pub shown : List ℕ
  pub merge : Merge text keys shown
  pub typed : Keys count keys
  pub shows : Shows s (type_all colour shown t)

-- A byte of the text first.
Merged-byte :
    (c : ℕ) (text : List ℕ) (count : ℕ) (s s' : Console) (t : Terminal)
    → Merged text count (colour_of (putc c s)) s' (type (colour_of s) (u8 c) t)
    → Merged (c ∷ text) count (colour_of s) s' t
unfolding type_all
Merged-byte c text count s s' t m = record {
  keys = m.keys;
  shown = c ∷ m.shown;
  merge = left c m.merge;
  typed = m.typed;
  shows =
      subst (λ colour. Shows s' (type_all colour m.shown (type (colour_of s) (u8 c) t)))
        (colour-putc c s) m.shows;
}

-- The keys of an interrupt first.
Merged-keys :
    (ks text : List ℕ) (n count colour colour' : ℕ) (s' : Console) (t : Terminal)
    → colour' ≡ colour
    → Keys n ks
    → Merged text count colour' s' (type_all colour ks t)
    → Merged text (n + count) colour s' t
Merged-keys ks text n count colour colour' s' t same h m = record {
  keys = ks ++ m.keys;
  shown = ks ++ m.shown;
  merge = Merge-append ks m.merge;
  typed = (
    All-append IsKey ks m.keys h.0 m.typed.0,
    omega (arith, h.1, m.typed.1, length-append ks m.keys),
  );
  shows =
      rw (type_all-append colour ks m.shown t)
        (subst (λ c. Shows s' (type_all c m.shown (type_all colour ks t))) same m.shows);
}

clock_step :
    (src : Source) (a b n : ℕ)
    → b ≡ (elim src [ clock ↦ (a + 1) % 2 ^ 64 | keyboard ↦ a ])
    → (b + n) % 2 ^ 64 ≡ (a + (n + (elim src [ clock ↦ 1 | keyboard ↦ 0 ]))) % 2 ^ 64
clock_step clock a b n e = omega (arith, e)
clock_step keyboard a b n e = omega (arith, e)

module _ (devices : Devices) (cr2 : ℕ) where
  put_text_merges :
      (turns : List Turn) (text : List ℕ) (k : Kernel) (t : Terminal)
      → IsReady k
      → Shows k.con t
      → (k' : Kernel) × (put_text devices cr2 turns text k ≡ running k')
        × Merged text (presses turns) (colour_of k.con) k'.con t
        × IsReady k'
        × (k'.timer_ticks ≡ (k.timer_ticks + ticks turns) % 2 ^ 64)
  unfolding put_text presses ticks
  put_text_merges [] text k t ready shows = (
    record k { con = put_all text k.con },
    refl,
    record {
      keys = [];
      shown = text;
      merge = Merge-nil text;
      typed = (tt, omega arith);
      shows = put_all-Shows text k.con t shows;
    },
    record {
      timer = ready.timer;
      kbd = ready.kbd;
      on = (put_all-Shows text k.con t shows).on;
      ticks = ready.ticks;
    },
    omega (arith, ready.ticks),
  )
  put_text_merges (byte ∷ turns) [] k t ready shows = put_text_merges turns [] k t ready shows
  put_text_merges (byte ∷ turns) (c ∷ text) k t ready shows =
      let on = putc-IsOnScreen c k.con ready.on in
      let ready1 : IsReady (put_byte c k) = record {
        timer = ready.timer;
        kbd = ready.kbd;
        on = on;
        ticks = ready.ticks;
      } in
      let (k', runs, m, ready', counted) =
        put_text_merges turns text (put_byte c k) (type (colour_of k.con) (u8 c) t) ready1
          (putc_refines k.con t shows c) in
      (k', runs, Merged-byte c text (presses turns) k.con k'.con t m, ready', counted)
  put_text_merges (arrival i ∷ turns) text k t ready shows =
      let (k1, e1, h1) = handle devices cr2 i k ready in
      let (ks, h, shows1) = h1.types.typed t shows in
      let (k', runs, m, ready', counted) =
        put_text_merges turns text k1 (type_all (colour_of k.con) ks t) h1.ready shows1 in
      (
        k',
        ap (λ o. o |> put_text devices cr2 turns text) e1 ∙ runs,
        Merged-keys ks text (pressed (source i)) (presses turns) (colour_of k.con)
            (colour_of k1.con) k'.con t h1.types.colours h m,
        ready',
        counted ∙ clock_step (source i) k.timer_ticks k1.timer_ticks (ticks turns) h1.clocked,
      )

  -- Where a format and its 32-bit arguments have a text, from a state in which both handlers are
  -- registered: without interrupts the bytes of the text are put as `printk` puts them; and with timer
  -- and keyboard interrupts before, between and behind the bytes nothing faults or halts, the screen
  -- shows the text and the keys pressed meanwhile merged, each in its order, at most one key for each
  -- interrupt of the keyboard, and the clock has counted the interrupts of the timer modulo 2 ^ 64.
  pub printk_merges :
      (turns : List Turn) (fmt : List ℕ) (args : List Arg) (text : List ℕ) (k : Kernel)
      (t : Terminal)
      → Words args
      → render fmt args ≡ some text
      → IsReady k
      → Shows k.con t
      → (put_text devices cr2 [] text k ≡ print fmt args k)
        × ((k' : Kernel) × (put_text devices cr2 turns text k ≡ running k')
            × Merged text (presses turns) (colour_of k.con) k'.con t
            × IsReady k'
            × (k'.timer_ticks ≡ (k.timer_ticks + ticks turns) % 2 ^ 64))
  unfolding put_text
  printk_merges turns fmt args text k t words e ready shows = (
    sym (
        ap (λ o. on_console o k)
          (printk-render fmt args k.con words ∙ ap (λ o. o >>= λ t. some (put_all t k.con)) e)),
    put_text_merges turns text k t ready shows,
  )
