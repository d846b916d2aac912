-- ===== src/Errno/Tests.antt =====
-- The macros of Linux and of Cygwin.
use brunix.Prelude.{Bool, ◌<◌, ◌≡◌, refl, true, false, some, none, codes}
use brunix.Errno.{Macros, errno, expand, is_active, same_name}
use brunix.Errno.Distinct.{expand_distinct}

abbrev on_linux : Macros
on_linux = record { linux_errno_extensions = true; cygwin = false }

abbrev on_cygwin : Macros
on_cygwin = record { linux_errno_extensions = false; cygwin = true }

on_linux_only : expand on_linux (codes "ESTRPIPE") errno ≡ some 143
unfolding expand is_active same_name
on_linux_only = refl

not_on_cygwin : expand on_cygwin (codes "ESTRPIPE") errno ≡ none
unfolding expand is_active same_name
not_on_cygwin = refl

on_both :
    (linux cygwin : Bool)
    → expand (record { linux_errno_extensions = linux; cygwin = cygwin }) (codes "EOWNERDEAD") errno
      ≡ some 142
unfolding expand is_active same_name
on_both true true = refl
on_both true false = refl
on_both false true = refl
on_both false false = refl

expand_distinct_example : (0 < 142) × (codes "EOWNERDEAD" ≡ codes "EOWNERDEAD")
expand_distinct_example =
    expand_distinct on_linux on_cygwin (codes "EOWNERDEAD") (codes "EOWNERDEAD") 142
      (on_both true false) (on_both false true)
