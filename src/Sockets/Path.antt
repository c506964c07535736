-- ===== src/Sockets/Path.antt =====
-- What `strcpy` leaves in `sun_path`, and the names that it does not fit.
use packages_services_vnc_fl.Sockets.Create.{strcpy, zeros, sun_path, abstract_path}
use packages_services_vnc_fl.Prelude.{
  ℕ, List, Option, Bool, none, some, ◌≡◌, [], ◌∷◌, length, leb, take, true, false, refl, arith, suc,
  zero, Option-cases, inl, inr, ◌∙◌, ap, drop,
}

abbrev pub is_none : {A : Type 0} → Option A → Bool
is_none none = true
is_none (some a) = false

is_none-strcpy :
    (buffer text : List ℕ) → is_none (strcpy buffer text) ≡ leb (length buffer) (length text)
unfolding strcpy
is_none-strcpy [] text = ground arith
is_none-strcpy (b ∷ buffer) [] = ground arith
is_none-strcpy (b ∷ buffer) (c ∷ text) = elim (Option-cases (strcpy buffer text)) [
  | inl n ↦ ground (arith, n, is_none-strcpy buffer text)
  | inr (rest, e) ↦ ground (arith, e, is_none-strcpy buffer text)
]

take-strcpy :
    (buffer text rest : List ℕ) → strcpy buffer text ≡ some rest → take (length text) rest ≡ text
unfolding strcpy
take-strcpy [] text rest h = cc
take-strcpy (b ∷ buffer) [] rest h = refl
take-strcpy (b ∷ buffer) (c ∷ text) rest h = elim (Option-cases (strcpy buffer text)) [
  | inl n ↦ ground (arith, n)
  | inr (rest', e) ↦ ground (arith, e, take-strcpy buffer text rest')
]

length-zeros : (n : ℕ) → length (zeros n) ≡ n
unfolding zeros
length-zeros zero = refl
length-zeros (suc n) = ap suc (length-zeros n)

-- The names of 108 bytes or more write past the end of `sun_path`, and no others.
pub is_none-sun_path : (name : List ℕ) → is_none (sun_path name) ≡ leb 108 (length name)
unfolding sun_path
is_none-sun_path name =
    is_none-strcpy (zeros 108) name ∙ ap (λ n. leb n (length name)) (length-zeros 108)

take-sun_path : (name path : List ℕ) → sun_path name ≡ some path → take (length name) path ≡ name
unfolding sun_path
take-sun_path name path e = take-strcpy (zeros 108) name path e

take-abstract_path :
    (name path : List ℕ)
    → take (length name) path ≡ name
    → take (length name) (abstract_path path) ≡ abstract_path name
unfolding abstract_path
take-abstract_path [] path h = refl
take-abstract_path (c ∷ cs) [] h = cc
take-abstract_path (c ∷ cs) (b ∷ bs) h = ap (λ l. 0 ∷ drop 1 l) h

-- A shorter name is copied whole, and the bytes that `strlen(name)` covers are then it with its first
-- byte cleared.
pub sun_path-short :
    (name : List ℕ)
    → leb 108 (length name) ≡ false
    → (path : List ℕ) × (sun_path name ≡ some path)
      × (take (length name) (abstract_path path) ≡ abstract_path name)
sun_path-short name h = elim (Option-cases (sun_path name)) [
  | inl n ↦ ground (arith, ap is_none n, is_none-sun_path name)
  | inr (path, e) ↦ (path, e, take-abstract_path name path (take-sun_path name path e))
]
