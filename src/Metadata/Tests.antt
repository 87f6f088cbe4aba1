-- ===== src/Metadata/Tests.antt =====
-- Maps of metadata.
use go_vkit.Prelude.{◌≡◌, refl, true, ◌∷◌, [], codes, bytes_eq, lookup}
use mathlib.Core.Quot
use go_vkit.Metadata.Merge.{merged}
use go_vkit.Metadata.Maps.{Map, get, merge, get-merge}

abbrev patch : Map
unfolding lookup bytes_eq
patch = Quot.mk ((codes "User", codes "ann") ∷ (codes "Role", []) ∷ [], (refl, (refl, tt)))

abbrev existing : Map
unfolding lookup bytes_eq
existing =
    Quot.mk ((codes "User", codes "bob") ∷ (codes "Role", codes "admin") ∷ [], (refl, (refl, tt)))

get-merge_example :
    get (codes "Role") (merge true patch existing)
    ≡ merged true (get (codes "Role") patch) (get (codes "Role") existing)
get-merge_example = get-merge true patch existing (codes "Role")
