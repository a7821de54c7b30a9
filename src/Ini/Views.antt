-- ===== src/Ini/Views.antt =====
-- A file as a function from sections and keys to values, and each operation as a change of it.
use fz_server.Prelude.{
  ◌≡◌, refl, ap, ◌∙◌, inl, inr, Bool, true, false, [], Option, none, some, arith, if◌then◌else◌,
  Bool-cases, Option-cases, subst, fun_ext,
}
use fz_server.Memory.{Bytes}
use fz_server.Text.{equals}
use fz_server.Map.{Map, lookup, erase, bytes_eq, equals_iff}
use fz_server.Map.Laws.{lookup-erase}
use fz_server.Ini.{
  Section, Sections, IniFile, set_value, get, set, has_key, remove_key, remove_section, section_of,
  clear,
}
use fz_server.Ini.Ordered.{put, at_key, lookup-put}

-- The value under a key, where the section and the key are there.
abbrev pub entry : Bytes → Option Section → Option Bytes
entry key none = none
entry key (some entries) = lookup key entries

abbrev pub view : IniFile → Bytes → Bytes → Option Bytes
view ini section key = entry key (lookup section ini.sections)

abbrev pub or_empty : Option Bytes → Bytes
or_empty none = []
or_empty (some value) = value

abbrev pub is_some {ℓ} : {A : Type ℓ} → Option A → Bool
is_some none = false
is_some (some _) = true

-- `m[k]` changes nothing but a key that is missing.
lookup-at_key :
    {V : Type 0} (k j : Bytes) (d : V) (m : Map Bytes V)
    → lookup j (at_key k d m).1 ≡ (if equals k j then some (at_key k d m).0 else lookup j m)
unfolding at_key
lookup-at_key k j d m = elim (Option-cases (lookup k m)) [
  | inl missing ↦ rw (missing, at_key) (lookup-put k j d m)
  | inr (v, found) ↦
      rw (found, at_key)
        (elim (Bool-cases (equals k j)) [
          | inl same ↦ rw same (subst (λ i. lookup i m ≡ some v) ((equals_iff k j).0 same) found)
          | inr other ↦ rw other refl
        ])
]

at_key-value :
    {V : Type 0} (k : Bytes) (d : V) (m : Map Bytes V)
    → (at_key k d m).0 ≡ (elim (lookup k m) [ none ↦ d | some v ↦ v ])
unfolding at_key
at_key-value k d m = elim (Option-cases (lookup k m)) [
  | inl missing ↦ rw (missing, at_key) refl
  | inr (v, found) ↦ rw (found, at_key) refl
]

-- Looking a key up in the section that `m_sections[section]` gives.
lookup-section :
    (section key : Bytes) (m : Sections)
    → lookup key (at_key section [] m).0 ≡ entry key (lookup section m)
unfolding lookup
lookup-section section key m =
    ap (lookup key) (at_key-value section [] m) ∙ by_cases (lookup section m)
  where
    by_cases :
        (o : Option Section)
        → lookup key (elim o [ none ↦ [] | some entries ↦ entries ]) ≡ entry key o
    by_cases none = refl
    by_cases (some entries) = refl

same_section :
    (s t key : Bytes) (m : Sections)
    → equals s t ≡ true
    → entry key (lookup s m) ≡ entry key (lookup t m)
same_section s t key m same = ap (λ i. entry key (lookup i m)) ((equals_iff s t).0 same)

-- A section that is looked up, changed and stored again.
entry-put :
    (s t key : Bytes) (changed : Section) (m : Sections)
    → entry key (lookup t (put s changed (at_key s [] m).1))
      ≡ (if equals s t then lookup key changed else entry key (lookup t m))
entry-put s t key changed m = elim (Bool-cases (equals s t)) [
  | inl same ↦ rw (lookup-put s t changed (at_key s [] m).1, same) refl
  | inr other ↦
      rw (lookup-put s t changed (at_key s [] m).1, other, lookup-at_key s t [] m, other) refl
]

view-set :
    (s k v : Bytes) (ini : IniFile) (t j : Bytes)
    → view (set s k v ini) t j
      ≡ (if equals s t then (if equals k j then some v else view ini t j) else view ini t j)
unfolding set set_value
view-set s k v ini t j =
    let m = ini.sections in
    entry-put s t j (put k v (at_key s [] m).0) m ∙ (elim (Bool-cases (equals s t)) [
      | inl same ↦ rw same (
          lookup-put k j v (at_key s [] m).0
          ∙ ap (λ o. if equals k j then some v else o)
              (lookup-section s j m ∙ same_section s t j m same))
      | inr other ↦ rw other refl
    ])

-- `get` answers the value, or the empty one, which it leaves in the file.
view-get :
    (s k : Bytes) (ini : IniFile)
    → ((get s k ini).0 ≡ or_empty (view ini s k))
      × ((t j : Bytes)
          → view (get s k ini).1 t j ≡ (
              if equals s t
              then (if equals k j then some (get s k ini).0 else view ini t j)
              else view ini t j))
unfolding get
view-get s k ini =
    let m = ini.sections in
    let e = (at_key s [] m).0 in
    (
      at_key-value k [] e
          ∙ ap (λ o. elim o [ none ↦ [] | some v ↦ v ]) (lookup-section s k m)
          ∙ answer (view ini s k),
      λ t j. entry-put s t j (at_key k [] e).1 m ∙ (elim (Bool-cases (equals s t)) [
        | inl same ↦ rw same (
            lookup-at_key k j [] e
            ∙ ap (λ o. if equals k j then some (at_key k [] e).0 else o)
                (lookup-section s j m ∙ same_section s t j m same))
        | inr other ↦ rw other refl
      ]),
    )
  where
    answer : (o : Option Bytes) → elim o [ none ↦ [] | some v ↦ v ] ≡ or_empty o
    answer none = refl
    answer (some v) = refl

view-remove_key :
    (s k : Bytes) (ini : IniFile) (t j : Bytes)
    → view (remove_key s k ini) t j
      ≡ (if equals s t then (if equals k j then none else view ini t j) else view ini t j)
unfolding remove_key
view-remove_key s k ini t j = elim (Option-cases (lookup s ini.sections)) [
  | inl missing ↦
      rw (missing, remove_key)
        (elim (Bool-cases (equals s t)) [
          | inl same ↦
              rw (same, ← same_section s t j ini.sections same, missing) (nothing (equals k j))
          | inr other ↦ rw other refl
        ])
  | inr (entries, found) ↦
      rw (found, remove_key)
        (elim (Bool-cases (equals s t)) [
          | inl same ↦
              rw
                (
                  lookup-put s t (erase k entries) ini.sections,
                  same,
                  lookup-erase k j entries,
                  ← same_section s t j ini.sections same,
                  found,
                )
                refl
          | inr other ↦ rw (lookup-put s t (erase k entries) ini.sections, other) refl
        ])
]
  where
    nothing : (b : Bool) → ◌≡◌ {A = Option Bytes} none (if b then none else none)
    nothing true = refl
    nothing false = refl

view-remove_section :
    (s : Bytes) (ini : IniFile) (t j : Bytes)
    → view (remove_section s ini) t j ≡ (if equals s t then none else view ini t j)
unfolding remove_section
view-remove_section s ini t j = elim (Bool-cases (equals s t)) [
  | inl same ↦ rw (lookup-erase s t ini.sections, same) refl
  | inr other ↦ rw (lookup-erase s t ini.sections, other) refl
]

has_key-view : (s k : Bytes) (ini : IniFile) → has_key s k ini ≡ is_some (view ini s k)
unfolding has_key
has_key-view s k ini = by_cases (lookup s ini.sections)
  where
    by_cases :
        (o : Option Section)
        → elim o [
          | none ↦ false
          | some entries ↦ elim (lookup k entries) [ none ↦ false | some _ ↦ true ]
        ]
          ≡ is_some (entry k o)
    by_cases none = refl
    by_cases (some entries) = ground (arith)

view-section_of :
    (s : Bytes) (ini : IniFile)
    → ((k : Bytes) → lookup k (section_of s ini).0 ≡ view ini s k)
      × ((t j : Bytes) → view (section_of s ini).1 t j ≡ view ini t j)
unfolding section_of
view-section_of s ini =
    let m = ini.sections in
    (
      λ k. lookup-section s k m,
      λ t j. elim (Bool-cases (equals s t)) [
        | inl same ↦
            rw (lookup-at_key s t [] m, same) (lookup-section s j m ∙ same_section s t j m same)
        | inr other ↦ rw (lookup-at_key s t [] m, other) refl
      ],
    )

-- A function from sections and keys to values, changed at one place.
abbrev pub change :
    (Bytes → Bytes → Option Bytes) → Bytes → Bytes → Option Bytes → Bytes → Bytes → Option Bytes
change f s k o t j = if equals s t then (if equals k j then o else f t j) else f t j

-- What the operations of a file promise, in terms of what is seen through `view`.
pub record IsStore (ini : IniFile) (s k v : Bytes) : Type 0 where
  pub set_is : view (set s k v ini) ≡ change (view ini) s k (some v)
  pub get_is : (get s k ini).0 ≡ or_empty (view ini s k)
  pub get_leaves : view (get s k ini).1 ≡ change (view ini) s k (some (get s k ini).0)
  pub has_is : has_key s k ini ≡ is_some (view ini s k)
  pub remove_is : view (remove_key s k ini) ≡ change (view ini) s k none
  pub remove_section_is :
      view (remove_section s ini) ≡ (λ t j. if equals s t then none else view ini t j)
  pub section_is : (λ j. lookup j (section_of s ini).0) ≡ view ini s
  pub section_leaves : view (section_of s ini).1 ≡ view ini
  pub clear_is : view (clear ini) ≡ (λ t j. none)

-- Seen as a function from a section and a key to a value that may be missing, `set` changes that
-- one value, `get` gives it and leaves in its place an empty value if it was missing, `has` tells
-- whether it is there, `remove` of a key makes it missing, `remove` of a section makes all of
-- that section missing, `clear` everything, and `operator[]` gives the values of the section and
-- changes none.
pub set-get-IsStore : (ini : IniFile) (s k v : Bytes) → IsStore ini s k v
unfolding clear lookup
set-get-IsStore ini s k v = record {
  set_is = fun_ext λ t. fun_ext λ j. view-set s k v ini t j;
  get_is = (view-get s k ini).0;
  get_leaves = fun_ext λ t. fun_ext λ j. (view-get s k ini).1 t j;
  has_is = has_key-view s k ini;
  remove_is = fun_ext λ t. fun_ext λ j. view-remove_key s k ini t j;
  remove_section_is = fun_ext λ t. fun_ext λ j. view-remove_section s ini t j;
  section_is = fun_ext (view-section_of s ini).0;
  section_leaves = fun_ext λ t. fun_ext λ j. (view-section_of s ini).1 t j;
  clear_is = refl;
}
