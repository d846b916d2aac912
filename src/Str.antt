-- ===== src/Str.antt =====
-- libkern/string.c: `memset`, and four functions with empty bodies.
pub mod Memset
mod Tests
use brunix.Prelude.{ℕ, zero, suc, ◌+◌, u8, Option, some, none, ◌>>=◌, List}
use brunix.Itoa.{store}

-- The loop, with `p` as an index into the object at `dest`; `none` is a write outside the object.
unfoldable pub set_bytes : ℕ → ℕ → ℕ → List ℕ → Option (List ℕ)
set_bytes val p zero dest = some dest
set_bytes val p (suc n) dest = store dest p (u8 val) >>= λ dest. set_bytes val (p + 1) n dest

-- `memset(dest, val, n)`; `val` is the `int` modulo 2 ^ 32, of which a `char` keeps 8 bits.
unfoldable pub memset : List ℕ → ℕ → ℕ → Option (List ℕ)
memset dest val n = set_bytes val 0 n dest

-- `memcpy`, `strcpy` and `strcat` leave the object at `dest` as it is, and return no value that C
-- defines; neither does `strcmp`.
abbrev memcpy : List ℕ → List ℕ → ℕ → List ℕ
memcpy dest src n = dest

abbrev strcpy : List ℕ → List ℕ → List ℕ
strcpy dest src = dest

abbrev strcat : List ℕ → List ℕ → List ℕ
strcat dest src = dest

abbrev strcmp : List ℕ → List ℕ → Option ℕ
strcmp str1 str2 = none
