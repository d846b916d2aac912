-- ===== src/Errno.antt =====
-- include/brunix/errno.h: the error numbers.
pub mod Distinct
mod Tests
use Prim.Native.String.{String}
use brunix.Prelude.{
  ℕ, Bool, true, false, ◌&&◌, ◌==◌, if◌then◌else◌, Option, some, none, List, [], ◌∷◌, codes,
}

-- Whether a line stands under `#ifdef __LINUX_ERRNO_EXTENSIONS__`, `#ifdef __CYGWIN__` or neither.
pub data Condition : Type 0 where
  always : Condition
  linux : Condition
  cygwin : Condition

-- `#define name number`
pub record Line : Type 0 where
  pub condition : Condition
  pub name : List ℕ
  pub number : ℕ

-- What the compilation defines.
pub record Macros : Type 0 where
  pub linux_errno_extensions : Bool
  pub cygwin : Bool

abbrev pub define : Condition → String → ℕ → Line
define condition name number = record { condition = condition; name = codes name; number = number }

unfoldable pub is_active : Macros → Condition → Bool
is_active macros always = true
is_active macros linux = macros.linux_errno_extensions
is_active macros cygwin = macros.cygwin

unfoldable pub same_name : List ℕ → List ℕ → Bool
same_name [] [] = true
same_name [] (d ∷ t) = false
same_name (c ∷ s) [] = false
same_name (c ∷ s) (d ∷ t) = c == d && same_name s t

-- What a name stands for behind these lines; `none` where it is not defined.
unfoldable pub expand : Macros → List ℕ → List Line → Option ℕ
unfolding is_active same_name
expand macros name [] = none
expand macros name (line ∷ lines) =
    let rest = expand macros name lines in
    if is_active macros line.condition && same_name name line.name then some line.number else rest

abbrev pub errno : List Line
errno =
    define always "EPERM" 1
    ∷ define always "ENOENT" 2
    ∷ define always "ESRCH" 3
    ∷ define always "EINTR" 4
    ∷ define always "EIO" 5
    ∷ define always "ENXIO" 6
    ∷ define always "E2BIG" 7
    ∷ define always "ENOEXEC" 8
    ∷ define always "EBADF" 9
    ∷ define always "ECHILD" 10
    ∷ define always "EAGAIN" 11
    ∷ define always "ENOMEM" 12
    ∷ define always "EACCES" 13
    ∷ define always "EFAULT" 14
    ∷ define linux "ENOTBLK" 15
    ∷ define always "EBUSY" 16
    ∷ define always "EEXIST" 17
    ∷ define always "EXDEV" 18
    ∷ define always "ENODEV" 19
    ∷ define always "ENOTDIR" 20
    ∷ define always "EISDIR" 21
    ∷ define always "EINVAL" 22
    ∷ define always "ENFILE" 23
    ∷ define always "EMFILE" 24
    ∷ define always "ENOTTY" 25
    ∷ define always "ETXTBSY" 26
    ∷ define always "EFBIG" 27
    ∷ define always "ENOSPC" 28
    ∷ define always "ESPIPE" 29
    ∷ define always "EROFS" 30
    ∷ define always "EMLINK" 31
    ∷ define always "EPIPE" 32
    ∷ define always "EDOM" 33
    ∷ define always "ERANGE" 34
    ∷ define always "ENOMSG" 35
    ∷ define always "EIDRM" 36
    ∷ define linux "ECHRNG" 37
    ∷ define linux "EL2NSYNC" 38
    ∷ define linux "EL3HLT" 39
    ∷ define linux "EL3RST" 40
    ∷ define linux "ELNRNG" 41
    ∷ define linux "EUNATCH" 42
    ∷ define linux "ENOCSI" 43
    ∷ define linux "EL2HLT" 44
    ∷ define always "EDEADLK" 45
    ∷ define always "ENOLCK" 46
    ∷ define linux "EBADE" 50
    ∷ define linux "EBADR" 51
    ∷ define linux "EXFULL" 52
    ∷ define linux "ENOANO" 53
    ∷ define linux "EBADRQC" 54
    ∷ define linux "EBADSLT" 55
    ∷ define linux "EDEADLOCK" 56
    ∷ define linux "EBFONT" 57
    ∷ define always "ENOSTR" 60
    ∷ define always "ENODATA" 61
    ∷ define always "ETIME" 62
    ∷ define always "ENOSR" 63
    ∷ define linux "ENONET" 64
    ∷ define linux "ENOPKG" 65
    ∷ define linux "EREMOTE" 66
    ∷ define always "ENOLINK" 67
    ∷ define linux "EADV" 68
    ∷ define linux "ESRMNT" 69
    ∷ define linux "ECOMM" 70
    ∷ define always "EPROTO" 71
    ∷ define always "EMULTIHOP" 74
    ∷ define linux "ELBIN" 75
    ∷ define linux "EDOTDOT" 76
    ∷ define always "EBADMSG" 77
    ∷ define always "EFTYPE" 79
    ∷ define linux "ENOTUNIQ" 80
    ∷ define linux "EBADFD" 81
    ∷ define linux "EREMCHG" 82
    ∷ define linux "ELIBACC" 83
    ∷ define linux "ELIBBAD" 84
    ∷ define linux "ELIBSCN" 85
    ∷ define linux "ELIBMAX" 86
    ∷ define linux "ELIBEXEC" 87
    ∷ define always "ENOSYS" 88
    ∷ define cygwin "ENMFILE" 89
    ∷ define always "ENOTEMPTY" 90
    ∷ define always "ENAMETOOLONG" 91
    ∷ define always "ELOOP" 92
    ∷ define always "EOPNOTSUPP" 95
    ∷ define always "EPFNOSUPPORT" 96
    ∷ define always "ECONNRESET" 104
    ∷ define always "ENOBUFS" 105
    ∷ define always "EAFNOSUPPORT" 106
    ∷ define always "EPROTOTYPE" 107
    ∷ define always "ENOTSOCK" 108
    ∷ define always "ENOPROTOOPT" 109
    ∷ define linux "ESHUTDOWN" 110
    ∷ define always "ECONNREFUSED" 111
    ∷ define always "EADDRINUSE" 112
    ∷ define always "ECONNABORTED" 113
    ∷ define always "ENETUNREACH" 114
    ∷ define always "ENETDOWN" 115
    ∷ define always "ETIMEDOUT" 116
    ∷ define always "EHOSTDOWN" 117
    ∷ define always "EHOSTUNREACH" 118
    ∷ define always "EINPROGRESS" 119
    ∷ define always "EALREADY" 120
    ∷ define always "EDESTADDRREQ" 121
    ∷ define always "EMSGSIZE" 122
    ∷ define always "EPROTONOSUPPORT" 123
    ∷ define linux "ESOCKTNOSUPPORT" 124
    ∷ define always "EADDRNOTAVAIL" 125
    ∷ define always "ENETRESET" 126
    ∷ define always "EISCONN" 127
    ∷ define always "ENOTCONN" 128
    ∷ define always "ETOOMANYREFS" 129
    ∷ define linux "EPROCLIM" 130
    ∷ define linux "EUSERS" 131
    ∷ define always "EDQUOT" 132
    ∷ define always "ESTALE" 133
    ∷ define always "ENOTSUP" 134
    ∷ define linux "ENOMEDIUM" 135
    ∷ define cygwin "ENOSHARE" 136
    ∷ define cygwin "ECASECLASH" 137
    ∷ define always "EILSEQ" 138
    ∷ define always "EOVERFLOW" 139
    ∷ define always "ECANCELED" 140
    ∷ define always "ENOTRECOVERABLE" 141
    ∷ define always "EOWNERDEAD" 142
    ∷ define linux "ESTRPIPE" 143
    ∷ []
