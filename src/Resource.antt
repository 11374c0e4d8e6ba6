-- ===== src/Resource.antt =====
-- workbench/common.py: resource keys and the conflict test of the scheduler (227-245), with the
-- part of pathlib's PurePosixPath that `overlap` calls.
mod Paths
pub mod Laws
pub use Paths.{PurePath, is_relative_to_iff, Below}
unfoldable pub use Paths.{pure_path, is_relative_to}
use android_workbench.Prelude.{
  ℕ, String, Option, none, some, Bool, true, false, ◌&&◌, ◌||◌, List, any, codes, strip_prefix,
  ◌==◌, if◌then◌else◌, ◌≡◌, ◌⊎◌,
}

-- How a task uses a resource.
pub data Mode : Type 0 where
  read write : Mode

pub record Resource : Type 0 where
  pub key : String
  pub mode : Mode

unfoldable pub resource : String → Mode → Resource
resource key mode = record { key = key; mode = mode }

-- The text behind "path:", if the key begins so.
unfoldable pub path_text : String → Option (List ℕ)
path_text key = strip_prefix (codes "path:") (codes key)

-- The test on two keys that both name a path.
unfoldable pub path_overlap : Option (List ℕ) → Option (List ℕ) → Bool
path_overlap none q = false
path_overlap (some p) none = false
path_overlap (some p) (some q) =
    is_relative_to (pure_path p) (pure_path q) || is_relative_to (pure_path q) (pure_path p)

unfoldable pub overlap : String → String → Bool
overlap a b = if a == b then true else path_overlap (path_text a) (path_text b)

abbrev pub is_write : Mode → Bool
is_write read = false
is_write write = true

-- The test of `conflict` on one pair of resources.
abbrev pub clash : Resource → Resource → Bool
clash x y = overlap x.key y.key && (is_write x.mode || is_write y.mode)

unfoldable pub conflict : List Resource → List Resource → Bool
conflict a b = any (λ x. any (λ y. clash x y) b) a

-- The keys exclude each other: they are equal, or both name paths of which one lies in the other.
abbrev pub Overlaps : String → String → Type 0
Overlaps a b =
    (a ≡ b)
    ⊎ ((p : List ℕ) × (q : List ℕ) × (path_text a ≡ some p)
        × (path_text b ≡ some q)
        × (Below (pure_path p) (pure_path q) ⊎ Below (pure_path q) (pure_path p)))
