-- ===== src/Sanitize/Laws.antt =====
-- What `sanitizeValue` makes of a value (src/common/middleware/sanitizeInput.ts).
use ceoma_api.Prelude.{
  ◌≡◌, refl, ap, ◌∙◌, Bool, true, false, String, str_eq, arith, Bool-cases, inl, inr, eq_iff,
}
use ceoma_api.Sanitize.{
  Value, undefined, null, boolean, number, string, array, object, Items, nil, item, Entries, end,
  entry, starts_dollar, sanitize_string, set_property, assign, sanitize_value, sanitize_items,
  sanitize_entries, assign_all,
}
use ceoma_api.Sanitize.Assignments.{has, has-set_property, HasOwnKeys, assign_all-end}
use ceoma_api.Sanitize.Texts.{IsCleanText, sanitize_string-IsCleanText, sanitize_string_fixed}

-- A value of the type `JsonValue` of which every text is clean. The own keys of an object are
-- distinct, and `__proto__` is none of them.
abbrev mutual
  pub IsClean : Value → Type 0
  IsClean undefined = ◌≡◌ {A = Bool} true false
  IsClean null = Unit {0}
  IsClean (boolean b) = Unit {0}
  IsClean (number n) = Unit {0}
  IsClean (string t) = IsCleanText t
  IsClean (array xs) = ItemsClean xs
  IsClean (object es) = EntriesClean es

  pub ItemsClean : Items → Type 0
  ItemsClean nil = Unit {0}
  ItemsClean (item v xs) = IsClean v × ItemsClean xs

  pub EntriesClean : Entries → Type 0
  EntriesClean end = Unit {0}
  EntriesClean (entry k v es) =
      IsCleanText k
      × (str_eq k "__proto__" ≡ false)
      × (has k es ≡ false)
      × IsClean v
      × EntriesClean es

-- No key of the value, at any depth, starts with `$`.
abbrev mutual
  pub HasNoOperators : Value → Type 0
  HasNoOperators undefined = Unit {0}
  HasNoOperators null = Unit {0}
  HasNoOperators (boolean b) = Unit {0}
  HasNoOperators (number n) = Unit {0}
  HasNoOperators (string t) = Unit {0}
  HasNoOperators (array xs) = ItemsHaveNoOperators xs
  HasNoOperators (object es) = EntriesHaveNoOperators es

  pub ItemsHaveNoOperators : Items → Type 0
  ItemsHaveNoOperators nil = Unit {0}
  ItemsHaveNoOperators (item v xs) = HasNoOperators v × ItemsHaveNoOperators xs

  pub EntriesHaveNoOperators : Entries → Type 0
  EntriesHaveNoOperators end = Unit {0}
  EntriesHaveNoOperators (entry k v es) =
      (starts_dollar k ≡ false) × HasNoOperators v × EntriesHaveNoOperators es

set_property-EntriesClean :
    (k : String) (v : Value) (es : Entries)
    → IsCleanText k
    → str_eq k "__proto__" ≡ false
    → IsClean v
    → EntriesClean es
    → EntriesClean (set_property k v es)
unfolding set_property
set_property-EntriesClean k v end ck p cv ce = (ck, p, refl, cv, tt)
set_property-EntriesClean k v (entry j w es) ck p cv (cj, q, fresh, cw, ces) =
    elim (Bool-cases (str_eq j k)) [
      | inl e ↦ rw e (cj, q, fresh, cv, ces)
      | inr e ↦
          let other : str_eq k j ≡ false = ground (arith, eq_iff j k, eq_iff k j) in
          rw e (
            cj,
            q,
            rw (has-set_property k j v es, other) fresh,
            cw,
            set_property-EntriesClean k v es ck p cv ces,
          )
    ]

assign-EntriesClean :
    (k : String) (v : Value) (es : Entries)
    → IsCleanText k
    → IsClean v
    → EntriesClean es
    → EntriesClean (assign k v es)
unfolding assign
assign-EntriesClean k v es ck cv ce = elim (Bool-cases (str_eq k "__proto__")) [
  | inl e ↦ rw e ce
  | inr e ↦ rw e (set_property-EntriesClean k v es ck e cv ce)
]

mutual
  unfolding sanitize_value

  sanitize_value-IsClean_lem : (v : Value) → IsClean (sanitize_value v)
  sanitize_value-IsClean_lem undefined = (refl, refl, refl)
  sanitize_value-IsClean_lem null = tt
  sanitize_value-IsClean_lem (boolean b) = tt
  sanitize_value-IsClean_lem (number n) = tt
  sanitize_value-IsClean_lem (string t) = sanitize_string-IsCleanText t
  sanitize_value-IsClean_lem (array xs) = sanitize_items-ItemsClean xs
  sanitize_value-IsClean_lem (object es) = sanitize_entries-EntriesClean es end tt

  sanitize_items-ItemsClean : (xs : Items) → ItemsClean (sanitize_items xs)
  sanitize_items-ItemsClean nil = tt
  sanitize_items-ItemsClean (item v xs) =
      (sanitize_value-IsClean_lem v, sanitize_items-ItemsClean xs)

  sanitize_entries-EntriesClean :
      (es result : Entries) → EntriesClean result → EntriesClean (sanitize_entries es result)
  sanitize_entries-EntriesClean end result c = c
  sanitize_entries-EntriesClean (entry k v es) result c =
      sanitize_entries-EntriesClean es _ (elim (Bool-cases (starts_dollar k)) [
        | inl e ↦ rw e c
        | inr e ↦ rw e (
            assign-EntriesClean (sanitize_string k) (sanitize_value v) result
              (sanitize_string-IsCleanText k) (sanitize_value-IsClean_lem v) c)
      ])

pub sanitize_value-IsClean : (v : Value) → IsClean (sanitize_value v)
sanitize_value-IsClean v = sanitize_value-IsClean_lem v

pub EntriesClean-HasOwnKeys : (es : Entries) → EntriesClean es → HasOwnKeys es
EntriesClean-HasOwnKeys end _ = tt
EntriesClean-HasOwnKeys (entry k v es) (_, p, fresh, _, cs) =
    (p, fresh, EntriesClean-HasOwnKeys es cs)

mutual
  unfolding sanitize_value assign_all

  sanitize_value_fixed_lem : (v : Value) → IsClean v → HasNoOperators v → sanitize_value v ≡ v
  sanitize_value_fixed_lem undefined c _ = cc
  sanitize_value_fixed_lem null _ _ = refl
  sanitize_value_fixed_lem (boolean b) _ _ = refl
  sanitize_value_fixed_lem (number n) _ _ = refl
  sanitize_value_fixed_lem (string t) c _ = ap string (sanitize_string_fixed t c)
  sanitize_value_fixed_lem (array xs) c o = ap array (sanitize_items_fixed xs c o)
  sanitize_value_fixed_lem (object es) c o =
      ap object
        (sanitize_entries-assign_all es end c o ∙ assign_all-end es (EntriesClean-HasOwnKeys es c))

  sanitize_items_fixed :
      (xs : Items) → ItemsClean xs → ItemsHaveNoOperators xs → sanitize_items xs ≡ xs
  sanitize_items_fixed nil _ _ = refl
  sanitize_items_fixed (item v xs) (c, cs) (o, os) =
      rw (sanitize_value_fixed_lem v c o, sanitize_items_fixed xs cs os)

  sanitize_entries-assign_all :
      (es r : Entries)
      → EntriesClean es
      → EntriesHaveNoOperators es
      → sanitize_entries es r ≡ assign_all es r
  sanitize_entries-assign_all end r _ _ = refl
  sanitize_entries-assign_all (entry k v es) r (ck, p, fresh, c, cs) (d, o, os) =
      rw (d, sanitize_string_fixed k ck, sanitize_value_fixed_lem v c o)
        (sanitize_entries-assign_all es (assign k v r) cs os)

-- A clean value is left as it is.
pub sanitize_value_fixed : (v : Value) → IsClean v → HasNoOperators v → sanitize_value v ≡ v
sanitize_value_fixed v c o = sanitize_value_fixed_lem v c o
