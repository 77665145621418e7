-- ===== src/Err.antt =====
-- ingenialink/err.c: the code that a failed exchange returns to the caller.
use ingenialink.Base.{
  Option, none, some, Error, efail, etimedout, eio, enotsup, ewrongreg, ewrongcrc, enack,
  regnotfound,
}

-- `ilerr__eth`, less the text that it sets.
unfoldable pub ilerr__eth : Error → Error
ilerr__eth ewrongcrc = ewrongcrc
ilerr__eth enack = enack
ilerr__eth ewrongreg = ewrongreg
ilerr__eth regnotfound = regnotfound
ilerr__eth etimedout = etimedout
ilerr__eth eio = eio
ilerr__eth enotsup = enotsup
ilerr__eth _ = efail

-- `ilerr__ecat`: the codes that the switch knows leave the returned variable uninitialised, `none`.
unfoldable pub ilerr__ecat : Error → Option Error
ilerr__ecat ewrongcrc = none
ilerr__ecat enack = none
ilerr__ecat ewrongreg = none
ilerr__ecat regnotfound = none
ilerr__ecat etimedout = none
ilerr__ecat eio = none
ilerr__ecat enotsup = none
ilerr__ecat _ = some efail
