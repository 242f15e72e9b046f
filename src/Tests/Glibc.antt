-- ===== src/Tests/Glibc.antt =====
-- Three versions of glibc on an old kernel, and a note that is cut short.
use bottle.Common.{List, [], ◌∷◌, ◌≡◌, refl, false, Option, none, some}
use bottle.Common.Tests.{if◌then◌else◌}
use bottle.Common.Text.{Bytes, codes, bytes_eq}
use bottle.Glibc.{first_fit, from_newest_fit, fit_of, glibc_min_kernel, newest_glibc_for_kernel}
use bottle.Glibc.Newest.{IsChosen, newest_glibc_for_kernel-IsChosen}
use bottle.Glibc.Notes.{is_panic, glibc_min_kernel_calm}
use bottle.Macho.{big_endian}
use bottle.Sonames.{from_newest}
use bottle.Version.{Ver, cmp_ver, parse_ver}

abbrev glibcs : List Ver
glibcs = parse_ver (codes "2.17") ∷ parse_ver (codes "2.26") ∷ parse_ver (codes "2.44") ∷ []

abbrev floor : Bytes → Option Bytes
floor raw =
    if bytes_eq raw (codes "2.44")
    then some (codes "3.2.0")
    else if bytes_eq raw (codes "2.26")
    then none
    else some (codes "2.6.32")

abbrev chosen : Bytes
chosen = newest_glibc_for_kernel (some glibcs) floor (codes "2.6.32-754.el6")

newest_glibc_for_kernel-IsChosen_example :
    IsChosen (fit_of floor (codes "2.6.32-754.el6")) (from_newest glibcs) chosen
unfolding newest_glibc_for_kernel from_newest_fit fit_of bytes_eq parse_ver cmp_ver first_fit
newest_glibc_for_kernel-IsChosen_example =
    newest_glibc_for_kernel-IsChosen glibcs floor (codes "2.6.32-754.el6") refl

-- The offset of the description wraps round to the start of the section.
abbrev note : Bytes
note = 255 ∷ 255 ∷ 255 ∷ 244 ∷ 0 ∷ 0 ∷ 0 ∷ 16 ∷ 0 ∷ 0 ∷ 0 ∷ 1 ∷ 71 ∷ 78 ∷ 85 ∷ 0 ∷ []

glibc_min_kernel_calm_example : is_panic (glibc_min_kernel big_endian note) ≡ false
glibc_min_kernel_calm_example = glibc_min_kernel_calm big_endian note
