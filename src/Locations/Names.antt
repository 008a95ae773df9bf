-- ===== src/Locations/Names.antt =====
-- What the checks of `create_location` keep: names and aliases that say which location is meant.
use weather_agent.Prelude.{
  ℕ, ◌≡◌, refl, sym, ap, ◌∙◌, subst, eq_iff, ◌||◌, ◌⊎◌, ◌↔◌, inl, inr, Bool, true, false, none,
  some, List, [], ◌∷◌, String, arith, ok, Bool-cases, any, find, is_some, str_eq, ==_refl,
}
use weather_agent.Database.{LocationOrm, Database, location_conflict, insert_row}
use weather_agent.Polish.{Unicode}
use weather_agent.Locations.{
  normalize, LocationCreate, Location, ref_of, same_name, name_clash, taken_name, alias_clash,
  check_name_conflict, check_alias_conflicts, new_location, create_location, location_to_domain,
  is_named, has_alias, resolve_location,
}

-- A row of the table, in whatever order the rows are.
abbrev pub IsRow : LocationOrm → List LocationOrm → Type 0
IsRow x [] = ⊥
IsRow x (y ∷ ys) = (x ≡ y) ⊎ IsRow x ys

abbrev pub SameRows : List LocationOrm → List LocationOrm → Type 0
SameRows xs ys = (x : LocationOrm) → IsRow x xs ↔ IsRow x ys

find-IsRow :
    (p : LocationOrm → Bool) (x : LocationOrm) (rows : List LocationOrm)
    → find p rows ≡ none
    → IsRow x rows
    → p x ≡ false
find-IsRow p x [] h i = absurd i
find-IsRow p x (y ∷ ys) h (inl same) = ap p same ∙ ground arith
find-IsRow p x (y ∷ ys) h (inr i) = find-IsRow p x ys (ground arith) i

find-alone :
    (p : LocationOrm → Bool) (x : LocationOrm) (rows : List LocationOrm)
    → p x ≡ true
    → IsRow x rows
    → ((y : LocationOrm) → IsRow y rows → p y ≡ true → y ≡ x)
    → find p rows ≡ some x
find-alone p x [] h i alone = absurd i
find-alone p x (y ∷ ys) h i alone = elim (Bool-cases (p y)) [
  | inl e ↦ rw e (ap some (alone y (inl refl) e))
  | inr e ↦ rw e (find-alone p x ys h (later i e) (λ z k. alone z (inr k)))
]
  where
    later : IsRow x (y ∷ ys) → p y ≡ false → IsRow x ys
    later (inl same) e = absurd (ground (arith, ap p same, h, e))
    later (inr k) e = k

find-no_row :
    (p : LocationOrm → Bool) (rows : List LocationOrm)
    → ((y : LocationOrm) → IsRow y rows → p y ≡ false)
    → find p rows ≡ none
find-no_row p [] alone = refl
find-no_row p (y ∷ ys) alone = rw (alone y (inl refl)) (find-no_row p ys (λ z k. alone z (inr k)))

module _ (unicode : Unicode) (user_id : ℕ) where
  checked-names :
      (create : LocationCreate) (now new_id : ℕ) (db : Database) (loc : Location)
      → (create_location unicode now new_id user_id create db).0 ≡ ok loc
      → (find (name_clash unicode user_id create.name none) db.locations ≡ none)
        × (find (alias_clash unicode user_id create.aliases none) db.locations ≡ none)
        × (insert_row location_conflict
              (new_location unicode now new_id user_id create)
              db.locations
            ≡ ok (new_location unicode now new_id user_id create ∷ db.locations))
        × (loc.id ≡ new_id)
  unfolding create_location check_name_conflict check_alias_conflicts location_to_domain
  checked-names create now new_id db loc h =
      (ground arith, ground arith, ground arith, ground arith)

  -- A query that equals a new alias is the name of no row that the alias check passed.
  taken-name :
      (aliases : List String) (query : String) (loc : LocationOrm)
      → any (λ a. same_name unicode a query) aliases ≡ true
      → same_name unicode loc.name query ≡ true
      → is_some (taken_name unicode aliases loc) ≡ true
  taken-name aliases query loc h k =
      let same = (eq_iff (normalize unicode loc.name) (normalize unicode query)).0 k in
      let there =
        subst (λ n. any (λ a. str_eq (normalize unicode a) n) aliases ≡ true) (sym same) h in
      ground (arith, there)

  -- Nor an alias of one.
  taken-among :
      (aliases names : List String) (query : String)
      → any (λ a. same_name unicode a query) aliases ≡ true
      → any (λ n. same_name unicode n query) names ≡ true
      → is_some (find (λ n. any (λ a. same_name unicode a n) aliases) names) ≡ true
  taken-among aliases [] query h k = k
  taken-among aliases (name ∷ names) query h k = elim (Bool-cases (same_name unicode name query)) [
    | inl e ↦
        let same = (eq_iff (normalize unicode name) (normalize unicode query)).0 e in
        let there =
          subst (λ n. any (λ a. str_eq (normalize unicode a) n) aliases ≡ true) (sym same) h in
        rw there refl
    | inr e ↦ ground (arith, taken-among aliases names query h)
  ]

  taken-alias :
      (aliases : List String) (query : String) (loc : LocationOrm)
      → any (λ a. same_name unicode a query) aliases ≡ true
      → any (λ a. same_name unicode a query) loc.aliases ≡ true
      → is_some (taken_name unicode aliases loc) ≡ true
  taken-alias aliases query loc h k = ground (arith, taken-among aliases loc.aliases query h k)

  same_name_trans :
      (a b query : String)
      → same_name unicode a query ≡ true
      → same_name unicode b query ≡ true
      → same_name unicode b a ≡ true
  same_name_trans a b query h k = (eq_iff (normalize unicode b) (normalize unicode a)).1 (
      (eq_iff (normalize unicode b) (normalize unicode query)).0 k
      ∙ sym ((eq_iff (normalize unicode a) (normalize unicode query)).0 h))

  module _ (create : LocationCreate) (now new_id : ℕ) (old rows : List LocationOrm) (query : String)
      (names : find (name_clash unicode user_id create.name none) old ≡ none)
      (aliases : find (alias_clash unicode user_id create.aliases none) old ≡ none)
      (same : SameRows rows (new_location unicode now new_id user_id create ∷ old)) where
    abbrev new : LocationOrm
    new = new_location unicode now new_id user_id create

    -- A row that the query means, and which the checks passed, is the new one.
    named-new :
        same_name unicode create.name query ≡ true
        → (y : LocationOrm) → IsRow y rows
        → is_named unicode user_id query y ≡ true
        → y ≡ new
    named-new q y i h = elim ((same y).0 i) [
      | inl e ↦ e
      | inr k ↦ absurd (
          ground (arith, find-IsRow _ y old names k, same_name_trans create.name y.name query q, h))
    ]

    named-by_alias :
        any (λ a. same_name unicode a query) create.aliases ≡ true
        → (y : LocationOrm) → IsRow y rows
        → is_named unicode user_id query y ≡ true
        → y ≡ new
    named-by_alias q y i h = elim ((same y).0 i) [
      | inl e ↦ e
      | inr k ↦
          absurd
            (ground (arith, find-IsRow _ y old aliases k, taken-name create.aliases query y q, h))
    ]

    aliased-new :
        any (λ a. same_name unicode a query) create.aliases ≡ true
        → (y : LocationOrm) → IsRow y rows
        → has_alias unicode user_id query y ≡ true
        → y ≡ new
    aliased-new q y i h = elim ((same y).0 i) [
      | inl e ↦ e
      | inr k ↦
          absurd
            (ground (arith, find-IsRow _ y old aliases k, taken-alias create.aliases query y q, h))
    ]

    new-IsRow : IsRow new rows
    new-IsRow = (same new).1 (inl refl)

    resolved-name :
        (db : Database)
        → same_name unicode create.name query ≡ true
        → resolve_location unicode query user_id (record db { locations = rows })
          ≡ some (ref_of new)
    unfolding resolve_location
    resolved-name db q =
        rw
          (find-alone (is_named unicode user_id query) new rows (ground (arith, q, ==_refl user_id))
            new-IsRow (named-new q))
          refl

    resolved-alias :
        (db : Database)
        → same_name unicode create.name query ≡ false
        → any (λ a. same_name unicode a query) create.aliases ≡ true
        → resolve_location unicode query user_id (record db { locations = rows })
          ≡ some (ref_of new)
    unfolding resolve_location
    resolved-alias db other q =
        rw
          (
            find-no_row (is_named unicode user_id query) rows (λ y i. unnamed y i),
            find-alone (has_alias unicode user_id query) new rows
                (ground (arith, q, ==_refl user_id)) new-IsRow (aliased-new q),
          )
          refl
      where
        unnamed : (y : LocationOrm) → IsRow y rows → is_named unicode user_id query y ≡ false
        unnamed y i = elim (Bool-cases (is_named unicode user_id query y)) [
          | inr e ↦ e
          | inl e ↦ absurd (
              ground (
                arith,
                ap (λ (x : LocationOrm). is_named unicode user_id query x) (named-by_alias q y i e),
                e,
                other,
              ))
        ]

  created-db :
      (create : LocationCreate) (now new_id : ℕ) (db : Database) (loc : Location)
      → (create_location unicode now new_id user_id create db).0 ≡ ok loc
      → (create_location unicode now new_id user_id create db).1
        ≡ record db { locations = new_location unicode now new_id user_id create ∷ db.locations }
  unfolding create_location check_name_conflict check_alias_conflicts
  created-db create now new_id db loc h = ground arith

  -- After `create_location` returned, `resolve_location` of a query that equals the new name or a new
  -- alias, as they are normalized, returns the new location, in whatever order the rows of the table
  -- are read.
  pub create_location-resolve_location :
      (create : LocationCreate) (now new_id : ℕ) (db : Database) (loc : Location)
      (rows : List LocationOrm) (query : String)
      → (create_location unicode now new_id user_id create db).0 ≡ ok loc
      → SameRows rows (create_location unicode now new_id user_id create db).1.locations
      → same_name unicode create.name query || any (λ a. same_name unicode a query) create.aliases
        ≡ true
      → resolve_location unicode query user_id
          (record (create_location unicode now new_id user_id create db).1 { locations = rows })
        ≡ some (ref_of (new_location unicode now new_id user_id create))
  create_location-resolve_location create now new_id db loc rows query h same q =
      let (names, aliases, row, is) = checked-names create now new_id db loc h in
      let new = new_location unicode now new_id user_id create in
      let made = created-db create now new_id db loc h in
      let same' : SameRows rows (new ∷ db.locations) =
        subst (λ (db' : Database). SameRows rows db'.locations) made same in
      subst
        (λ (db' : Database).
          resolve_location unicode query user_id (record db' { locations = rows })
          ≡ some (ref_of new))
        (sym made)
        (elim (Bool-cases (same_name unicode create.name query)) [
          | inl named ↦
              resolved-name create now new_id db.locations rows query names aliases same' db named
          | inr other ↦
              resolved-alias create now new_id db.locations rows query names aliases same' db other
                (ground (arith, q, other))
        ])
