-- ===== src/Util/Net.antt =====
-- cpp/src/epos_control/include/util/net_utils.hpp. The environment, the names under /sys/class/net and
-- std::sort are arguments.
use Prim.Native.String.{String, compare}
use text.Mathlib.Text.{◌==◌ as str_eq, starts_with}
use Prim.Native.Nat.{Ordering}
use mathlib.Core.Path.{subst}
use motor_control.Base.{
  Bool, true, ◌||◌, ◌≡◌, ◌≢◌, ◌⊎◌, ◌↔◌, inl, refl, sym, Option, none, some, List, [], ◌∷◌,
  if◌then◌else◌, arith,
}

-- name.rfind("enx", 0) == 0 || name.rfind("enp", 0) == 0
unfoldable pub is_candidate : String → Bool
is_candidate name = starts_with name "enx" || starts_with name "enp"

abbrev candidates : List String → List String
candidates [] = []
candidates (name ∷ names) = if is_candidate name then name ∷ candidates names else candidates names

-- candidates.empty() ? "" : candidates.front()
abbrev front : List String → String
front [] = ""
front (name ∷ names) = name

module _ (sort : List String → List String) where
  -- The interfaces of the machine, and the first of them if there are any.
  unfoldable pub first_interface : List String → String
  first_interface names = front (sort (candidates names))

  -- The first argument is getenv("EPOS_IFACE").
  unfoldable pub detect_default_iface : Option String → List String → String
  detect_default_iface none names = first_interface names
  detect_default_iface (some iface) names = if str_eq iface "" then first_interface names else iface

abbrev pub Has : String → List String → Type 0
Has x [] = ⊥
Has x (y ∷ ys) = (x ≡ y) ⊎ Has x ys

-- What std::sort promises: it keeps the elements, and none is before one that is less.
pub record Sorts (sort : List String → List String) : Type 0 where
  pub keeps : (x : String) (xs : List String) → Has x xs ↔ Has x (sort xs)
  pub least :
      (xs ys : List String) (y z : String)
      → sort xs ≡ y ∷ ys
      → Has z (y ∷ ys)
      → compare y z ≢ Ordering.gt

candidates-Has :
    (x : String) (names : List String)
    → Has x (candidates names) ↔ (Has x names × (is_candidate x ≡ true))
candidates-Has x [] = (λ h. absurd h, λ h. absurd h.0)
candidates-Has x (name ∷ names) = grind (arith, candidates-Has x names)

module _ (sort : List String → List String) (sorts : Sorts sort) where
  first_least :
      (xs sorted : List String)
      → sort xs ≡ sorted
      → (x : String) → Has x xs
      → Has (front sorted) xs × ((y : String) → Has y xs → compare (front sorted) y ≢ Ordering.gt)
  first_least xs [] e x h = absurd (subst (Has x) e ((sorts.keeps x xs).0 h))
  first_least xs (y ∷ ys) e x h = (
    (sorts.keeps y xs).1 (subst (Has y) (sym e) (inl refl)),
    λ z k. sorts.least xs ys y z e (subst (Has z) e ((sorts.keeps z xs).0 k)),
  )

  -- Where the environment names no interface and one of the machine begins with enx or enp, the
  -- default is an interface of the machine that does so, and none of those is less.
  pub detect_default_iface_lem :
      (names : List String) (x : String)
      → Has x names
      → is_candidate x ≡ true
      → let found = detect_default_iface sort none names in
        Has found names
        × (is_candidate found ≡ true)
        × ((y : String) → Has y names → is_candidate y ≡ true → compare found y ≢ Ordering.gt)
  unfolding detect_default_iface first_interface
  detect_default_iface_lem names x h c =
      let (there, least) =
        first_least (candidates names) (sort (candidates names)) refl x
          ((candidates-Has x names).1 (h, c)) in
      let (inside, chosen) = (candidates-Has (front (sort (candidates names))) names).0 there in
      (inside, chosen, λ y k b. least y ((candidates-Has y names).1 (k, b)))
