-- ===== src/Engine/Enrollments.antt =====
-- The map of the enrolled faces of lib/FaceEngineStub.cpp: what a look at it gives behind each change.
use android_vendor_extra_fac.Common.{
  none≢some, ◌∙◌, ◌≡◌, refl, sym, subst, true, false, inl, inr, List, [], ◌∷◌, if◌then◌else◌,
  Option, none, some, ℤ, pos, negsuc, int_eq, int_lt, int_eq→eq, int_eq_refl, arith, Bool-cases,
}
use android_vendor_extra_fac.Engine.Stub.{Enrollments, insert, erase, insert_all, max_id, next_id}

abbrev pub lookup : {F : Type 0} → ℤ → Enrollments F → Option (List F)
lookup id [] = none
lookup id ((key, value) ∷ rest) = if int_eq id key then some value else lookup id rest

-- All keys lie above a bound, or none does.
abbrev pub IsAbove : {F : Type 0} → ℤ → Enrollments F → Type 0
IsAbove b [] = Unit {0}
IsAbove b ((key, value) ∷ rest) = (int_lt b key ≡ true) × IsAbove b rest

abbrev pub IsWithin : {F : Type 0} → ℤ → Enrollments F → Type 0
IsWithin b [] = Unit {0}
IsWithin b ((key, value) ∷ rest) = (int_lt b key ≡ false) × IsWithin b rest

-- The keys ascend, as those of a `std::map` do.
abbrev pub IsSorted : {F : Type 0} → Enrollments F → Type 0
IsSorted [] = Unit {0}
IsSorted ((key, value) ∷ rest) = IsAbove key rest × IsSorted rest

int_lt_trans : (a b c : ℤ) → int_lt a b ≡ true → int_lt b c ≡ true → int_lt a c ≡ true
int_lt_trans a b c h k = ground arith

int_lt-int_eq : (a b : ℤ) → int_lt a b ≡ true → int_eq a b ≡ false
int_lt-int_eq a b h = ground arith

int_eq_left : (j a b : ℤ) → int_eq a b ≡ true → int_eq j a ≡ false → int_eq j b ≡ false
int_eq_left j a b h k = ground arith

int_total : (a b : ℤ) → int_eq a b ≡ false → int_lt a b ≡ false → int_lt b a ≡ true
int_total a b h k = ground arith

int_lt_refl : (a : ℤ) → int_lt a a ≡ false
int_lt_refl (pos n) = ground arith
int_lt_refl (negsuc n) = ground arith

max_id_step : (b key top : ℤ) → int_lt b key ≡ true → int_lt top key ≡ false → int_lt top b ≡ false
max_id_step b key top h k = ground arith

int_le_trans : (a b c : ℤ) → int_lt b a ≡ false → int_lt c b ≡ false → int_lt c a ≡ false
int_le_trans a b c h k = ground arith

next_id_not : (a b : ℤ) → int_lt b a ≡ false → int_eq (next_id b) a ≡ false
unfolding next_id
next_id_not a b h = ground arith

module _ {F : Type 0} where
  pub lookup-insert : (id : ℤ) (v : List F) (m : Enrollments F) → lookup id (insert id v m) ≡ some v
  unfolding insert
  lookup-insert id v [] = rw (int_eq_refl id) refl
  lookup-insert id v ((key, value) ∷ rest) =
      let same = int_eq_refl id in let later = lookup-insert id v rest in ground arith

  pub lookup-insert_other :
      (j id : ℤ) (v : List F) (m : Enrollments F)
      → int_eq j id ≡ false
      → lookup j (insert id v m) ≡ lookup j m
  unfolding insert
  lookup-insert_other j id v [] h = rw (h) refl
  lookup-insert_other j id v ((key, value) ∷ rest) h =
      let later = lookup-insert_other j id v rest h in
      let same = int_eq→eq id key in
      elim (Bool-cases (int_eq id key)) [
        | inl e ↦ rw (e, h, int_eq_left j id key e h) refl
        | inr e ↦ rw (e) (ground arith)
      ]

  above_lookup : (j : ℤ) (m : Enrollments F) → IsAbove j m → lookup j m ≡ none
  above_lookup j [] h = refl
  above_lookup j ((key, value) ∷ rest) (h, k) = rw (int_lt-int_eq j key h) (above_lookup j rest k)

  lower-IsAbove : (a b : ℤ) (m : Enrollments F) → int_lt a b ≡ true → IsAbove b m → IsAbove a m
  lower-IsAbove a b [] h k = k
  lower-IsAbove a b ((key, value) ∷ rest) h (k, l) =
      (int_lt_trans a b key h k, lower-IsAbove a b rest h l)

  insert-IsAbove :
      (b id : ℤ) (v : List F) (m : Enrollments F)
      → int_lt b id ≡ true
      → IsAbove b m
      → IsAbove b (insert id v m)
  unfolding insert
  insert-IsAbove b id v [] h k = (h, k)
  insert-IsAbove b id v ((key, value) ∷ rest) h (k, l) =
      let later = insert-IsAbove b id v rest h l in
      elim (Bool-cases (int_eq id key)) [
        | inl e ↦ rw (e) (h, l)
        | inr e ↦ elim (Bool-cases (int_lt id key)) [
          | inl f ↦ rw (e, f) (h, (k, l))
          | inr f ↦ rw (e, f) (k, later)
        ]
      ]

  pub insert-IsSorted :
      (id : ℤ) (v : List F) (m : Enrollments F) → IsSorted m → IsSorted (insert id v m)
  unfolding insert
  insert-IsSorted id v [] h = (tt, tt)
  insert-IsSorted id v ((key, value) ∷ rest) (h, k) =
      let later = insert-IsSorted id v rest k in
      elim (Bool-cases (int_eq id key)) [
        | inl e ↦ rw (e) (rw (int_eq→eq id key e) h, k)
        | inr e ↦ elim (Bool-cases (int_lt id key)) [
          | inl f ↦ rw (e, f) ((f, lower-IsAbove id key rest f h), (h, k))
          | inr f ↦ rw (e, f) (insert-IsAbove key id v rest (int_total id key e f) h, later)
        ]
      ]

  erase-IsAbove : (b id : ℤ) (m : Enrollments F) → IsAbove b m → IsAbove b (erase id m)
  unfolding erase
  erase-IsAbove b id [] h = h
  erase-IsAbove b id ((key, value) ∷ rest) (h, k) =
      let later = erase-IsAbove b id rest k in
      elim (Bool-cases (int_eq id key)) [ inl e ↦ rw (e) k | inr e ↦ rw (e) (h, later) ]

  pub erase-IsSorted : (id : ℤ) (m : Enrollments F) → IsSorted m → IsSorted (erase id m)
  unfolding erase
  erase-IsSorted id [] h = h
  erase-IsSorted id ((key, value) ∷ rest) (h, k) =
      let later = erase-IsSorted id rest k in
      elim (Bool-cases (int_eq id key)) [
        | inl e ↦ rw (e) k
        | inr e ↦ rw (e) (erase-IsAbove key id rest h, later)
      ]

  pub insert_all-IsSorted : (new m : Enrollments F) → IsSorted m → IsSorted (insert_all new m)
  unfolding insert_all
  insert_all-IsSorted [] m h = h
  insert_all-IsSorted ((id, v) ∷ new) m h =
      insert_all-IsSorted new (insert id v m) (insert-IsSorted id v m h)

  pub lookup-erase : (id : ℤ) (m : Enrollments F) → IsSorted m → lookup id (erase id m) ≡ none
  unfolding erase
  lookup-erase id [] h = refl
  lookup-erase id ((key, value) ∷ rest) (h, k) =
      let later = lookup-erase id rest k in
      elim (Bool-cases (int_eq id key)) [
        | inl e ↦ rw (e) (above_lookup id rest (rw (int_eq→eq id key e) h))
        | inr e ↦ rw (e, e) later
      ]

  pub lookup-erase_other :
      (j id : ℤ) (m : Enrollments F) → int_eq j id ≡ false → lookup j (erase id m) ≡ lookup j m
  unfolding erase
  lookup-erase_other j id [] h = refl
  lookup-erase_other j id ((key, value) ∷ rest) h =
      let later = lookup-erase_other j id rest h in
      elim (Bool-cases (int_eq id key)) [
        | inl e ↦ rw (e, int_eq_left j id key e h) refl
        | inr e ↦ rw (e) (ground arith)
      ]

  max_id_up :
      (b key : ℤ) (v : List F) (m : Enrollments F)
      → int_lt b key ≡ true
      → max_id b ((key, v) ∷ m) ≡ max_id key m
  unfolding max_id
  max_id_up b key v m h = rw (h) refl

  max_id_same :
      (b key : ℤ) (v : List F) (m : Enrollments F)
      → int_lt b key ≡ false
      → max_id b ((key, v) ∷ m) ≡ max_id b m
  unfolding max_id
  max_id_same b key v m h = rw (h) refl

  max_id_bound :
      (b : ℤ) (m : Enrollments F) → (int_lt (max_id b m) b ≡ false) × IsWithin (max_id b m) m
  max_id_bound b [] = unfold max_id in (int_lt_refl b, tt)
  max_id_bound b ((key, value) ∷ rest) = elim (Bool-cases (int_lt b key)) [
    | inl e ↦
        let (up, within) = max_id_bound key rest in
        at_bound (sym (max_id_up b key value rest e))
          (max_id_step b key (max_id key rest) e up, (up, within))
    | inr e ↦
        let (up, within) = max_id_bound b rest in
        at_bound (sym (max_id_same b key value rest e))
          (up, (int_le_trans key b (max_id b rest) e up, within))
  ]
    where
      at_bound :
          {x y : ℤ}
          → x ≡ y
          → (int_lt x b ≡ false) × IsWithin x ((key, value) ∷ rest)
          → (int_lt y b ≡ false) × IsWithin y ((key, value) ∷ rest)
      at_bound p h = subst (λ top. (int_lt top b ≡ false) × IsWithin top ((key, value) ∷ rest)) p h

  within_lookup : (b : ℤ) (m : Enrollments F) → IsWithin b m → lookup (next_id b) m ≡ none
  within_lookup b [] h = refl
  within_lookup b ((key, value) ∷ rest) (h, k) = rw (next_id_not key b h) (within_lookup b rest k)

  -- The id that the code takes for a new face is no enrolled face's.
  pub next_id_new : (m : Enrollments F) → lookup (next_id (max_id (pos 0) m)) m ≡ none
  next_id_new m = within_lookup (max_id (pos 0) m) m (max_id_bound (pos 0) m).1

  -- What neither the map nor the list that is inserted has is not there behind the insertion.
  pub lookup-insert_all :
      (j : ℤ) (loaded m : Enrollments F)
      → lookup j loaded ≡ none
      → lookup j m ≡ none
      → lookup j (insert_all loaded m) ≡ none
  unfolding insert_all
  lookup-insert_all j [] m h k = k
  lookup-insert_all j ((key, value) ∷ rest) m h k = elim (Bool-cases (int_eq j key)) [
    | inl e ↦
        let found : lookup j ((key, value) ∷ rest) ≡ some value = rw (e) refl in
        absurd (none≢some (sym h ∙ found))
    | inr e ↦
        let on : lookup j ((key, value) ∷ rest) ≡ lookup j rest = rw (e) refl in
        lookup-insert_all j rest (insert key value m) (sym on ∙ h)
          (lookup-insert_other j key value m e ∙ k)
  ]
