-- ===== src/Examples/Resources.antt =====
-- Resource keys of workbench/common.py under `overlap` and `conflict`.
use android_workbench.Prelude.{true, false, List, [], ◌∷◌, ◌≡◌, ◌↔◌, refl}
use android_workbench.Resource.{
  Resource, read, write, resource, overlap, path_overlap, path_text, pure_path, is_relative_to,
  conflict, Overlaps,
}
use android_workbench.Resource.Laws.{overlap_iff}

overlap_iff_example :
    (overlap "path:/work/app" "path:/work/app/src" ≡ true)
    ↔ Overlaps "path:/work/app" "path:/work/app/src"
overlap_iff_example = overlap_iff "path:/work/app" "path:/work/app/src"

abbrev builder : List Resource
builder = resource "path:/work/app" read ∷ []

abbrev writer : List Resource
writer = resource "path:/work/app/src" write ∷ resource "device:phone-1" write ∷ []

below_overlaps : overlap "path:/work/app" "path:/work//app/./src" ≡ true
unfolding overlap path_overlap path_text pure_path is_relative_to
below_overlaps = refl

sibling_is_free : overlap "path:/work/app" "path:/work/app2" ≡ false
unfolding overlap path_overlap path_text pure_path is_relative_to
sibling_is_free = refl

writer_waits : conflict builder writer ≡ true
unfolding conflict overlap path_overlap path_text pure_path is_relative_to resource
writer_waits = refl
