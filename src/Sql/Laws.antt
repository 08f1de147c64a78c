-- ===== src/Sql/Laws.antt =====
-- What the statements do to a table with a primary key: which rows an update touches, what a
-- lookup finds after it, and how a sum over the table moves.
use ceoma_api.Prelude.{
  ℕ, ◌≡◌, refl, ◌≢◌, inl, inr, ℤ, pos, ◌+ℤ◌, +ℤ_regroup, int_laws, Bool, true, some, List, [], ◌∷◌,
  if◌then◌else◌, arith, All, All-map2, Bool-cases, any, ||-eq-false, sym, ◌∙◌, false,
}
use mathlib.Core.Bool.{false≢true}
use ceoma_api.Sql.Defs.{Row, owned, find, select, update, sum_where}

module _ {R : Type 0} (p : R → Bool) where
  -- A row keeps fitting a condition that the update does not touch.
  pub find-update :
      (f : R → R) (rs : List R)
      → ((r : R) → p (f r) ≡ p r)
      → {r : R} → find p rs ≡ some r
      → find p (update p f rs) ≡ some (f r)
  unfolding find update
  find-update f [] same e = cc
  find-update f (x ∷ xs) same {r} e = ground (arith, same x, find-update f xs same {r = r})

  -- A row that is found fits the condition, and has what every row of the table has.
  pub find-All :
      (P : R → Type 0) (rs : List R) {r : R} → find p rs ≡ some r → All P rs → (p r ≡ true) × P r
  unfolding find
  find-All P [] e h = cc
  find-All P (x ∷ xs) {r} e h = ground (arith, find-All P xs {r = r})

  -- An update whose result has the property on every row it touches.
  pub update-All :
      (P : R → Type 0) (f : R → R) (rs : List R)
      → ((r : R) → P r → P (f r))
      → All P rs
      → All P (update p f rs)
  unfolding update
  update-All P f [] k h = tt
  update-All P f (x ∷ xs) k h = ground (arith, k x, update-All P f xs k h.1)

  pub sum_where-update_same :
      (q : R → Bool) (g : R → ℤ) (f : R → R) (rs : List R)
      → ((r : R) → q (f r) ≡ q r)
      → ((r : R) → g (f r) ≡ g r)
      → sum_where q g (update p f rs) ≡ sum_where q g rs
  unfolding sum_where update
  sum_where-update_same q g f [] hq hg = refl
  sum_where-update_same q g f (x ∷ xs) hq hg =
      ground (arith, hq x, hg x, sum_where-update_same q g f xs hq hg)

  -- A lookup by a condition that the update does not touch finds the same row, updated if it fits.
  pub find-update_where :
      (q : R → Bool) (f : R → R) (rs : List R)
      → ((r : R) → q (f r) ≡ q r)
      → {r : R} → find q rs ≡ some r
      → find q (update p f rs) ≡ some (if p r then f r else r)
  unfolding find update
  find-update_where q f [] same e = cc
  find-update_where q f (x ∷ xs) same {r} e = elim (Bool-cases (p x)) [
    | inl hit ↦ ground (arith, same x, find-update_where q f xs same {r = r})
    | inr miss ↦ ground (arith, find-update_where q f xs same {r = r})
  ]

  -- What holds of every selected row, as a statement about the table.
  pub select-All :
      (P : R → Type 0) (rs : List R) → All P (select p rs) → All (λ r. p r ≡ true → P r) rs
  unfolding select
  select-All P [] h = tt
  select-All P (x ∷ xs) h = elim (Bool-cases (p x)) [
    | inl hit ↦
        let both : P x × All P (select p xs) = rw hit at h in
        ((λ _. both.0), select-All P xs both.1)
    | inr miss ↦ ((λ hit. absurd (false≢true (sym miss ∙ hit))), select-All P xs (rw miss at h))
  ]

  pub All-select : (P : R → Type 0) (rs : List R) → All P rs → All P (select p rs)
  unfolding select
  All-select P [] h = tt
  All-select P (x ∷ xs) h = ground (arith, All-select P xs h.1)

module _ {R : Type 0} ⦃k : Row R⦄ where
  abbrev pub Absent : ℕ → List R → Type 0
  Absent id rs = All (λ r. k.id_of r ≢ id) rs

  -- The primary key: no identifier is listed twice.
  abbrev pub Unique : List R → Type 0
  Unique [] = Unit
  Unique (r ∷ rs) = Absent (k.id_of r) rs × Unique rs

  pub update-Absent :
      (id org : ℕ) (f : R → R) (rs : List R) → Absent id rs → update (owned id org) f rs ≡ rs
  unfolding update
  update-Absent id org f [] h = refl
  update-Absent id org f (x ∷ xs) h = ground (arith, update-Absent id org f xs h.1)

  -- The rows behind a row that fits a primary key are untouched.
  update-Absent_tail :
      (id org : ℕ) (f : R → R) (x : R) (xs : List R)
      → Unique (x ∷ xs)
      → owned id org x ≡ true
      → update (owned id org) f xs ≡ xs
  update-Absent_tail id org f x xs u hit =
      let same : k.id_of x ≡ id = ground arith in update-Absent id org f xs (rw same at (u.0))

  -- A row in front of the one that is found has another key.
  key_differs :
      (id org : ℕ) (x : R) (xs : List R) {r : R}
      → Unique (x ∷ xs)
      → find (owned id org) xs ≡ some r
      → k.id_of x ≢ id
  key_differs id org x xs {r} u e =
      let (fits, differs) = find-All (owned id org) (λ y. k.id_of y ≢ k.id_of x) xs e u.0 in
      λ same. ground arith

  -- An update by primary key touches the row that a lookup finds, and no other: what held of the
  -- others before may be turned into something else that holds of them.
  pub update-All_change :
      (P Q : R → Type 0) (id org : ℕ) (f : R → R) (rs : List R) {r : R}
      → Unique rs
      → find (owned id org) rs ≡ some r
      → ((x : R) → P x → k.id_of x ≢ id → Q x)
      → Q (f r)
      → All P rs
      → All Q (update (owned id org) f rs)
  unfolding find update
  update-All_change P Q id org f [] u e keep new h = tt
  update-All_change P Q id org f (x ∷ xs) {r} u e keep new h = elim (Bool-cases (owned id org x)) [
    | inl hit ↦
        let same : x ≡ r = ground arith in
        let key : k.id_of x ≡ id = ground arith in
        rw (hit, update-Absent_tail id org f x xs u hit, same)
          (new, All-map2 P (λ y. k.id_of y ≢ id) Q xs (λ y a b. keep y a b) h.1 (rw key at (u.0)))
    | inr miss ↦
        let later : find (owned id org) xs ≡ some r = rw miss at e in
        rw miss (
          keep x h.0 (key_differs id org x xs u later),
          update-All_change P Q id org f xs u.1 later keep new h.1,
        )
  ]

  pub update-All_found :
      (P : R → Type 0) (id org : ℕ) (f : R → R) (rs : List R) {r : R}
      → Unique rs
      → find (owned id org) rs ≡ some r
      → All P rs
      → P (f r)
      → All P (update (owned id org) f rs)
  update-All_found P id org f rs u e h new =
      update-All_change P P id org f rs u e (λ x p _. p) new h

  -- An update leaves the key unique if it leaves the identifiers alone.
  pub Absent-update :
      (i : ℕ) (p : R → Bool) (f : R → R) (rs : List R)
      → ((r : R) → k.id_of (f r) ≡ k.id_of r)
      → Absent i rs
      → Absent i (update p f rs)
  unfolding update
  Absent-update i p f [] same h = tt
  Absent-update i p f (x ∷ xs) same h = ground (arith, same x, Absent-update i p f xs same h.1)

  pub Unique-update_where :
      (p : R → Bool) (f : R → R) (rs : List R)
      → ((r : R) → k.id_of (f r) ≡ k.id_of r)
      → Unique rs
      → Unique (update p f rs)
  unfolding update
  Unique-update_where p f [] same u = tt
  Unique-update_where p f (x ∷ xs) same u = ground (
    arith,
    same x,
    Absent-update (k.id_of x) p f xs same u.0,
    Unique-update_where p f xs same u.1,
  )

  pub Unique-update :
      (id org : ℕ) (f : R → R) (rs : List R)
      → ((r : R) → k.id_of (f r) ≡ k.id_of r)
      → Unique rs
      → Unique (update (owned id org) f rs)
  Unique-update id org f rs same u = Unique-update_where (owned id org) f rs same u

  -- The sum of a column after an update by primary key.
  pub sum_where-update :
      (q : R → Bool) (g : R → ℤ) (id org : ℕ) (f : R → R) (rs : List R) {r : R}
      → Unique rs
      → find (owned id org) rs ≡ some r
      → sum_where q g (update (owned id org) f rs) +ℤ (if q r then g r else pos 0)
        ≡ sum_where q g rs +ℤ (if q (f r) then g (f r) else pos 0)
  unfolding find update sum_where
  sum_where-update q g id org f [] u e = cc
  sum_where-update q g id org f (x ∷ xs) {r} u e = elim (Bool-cases (owned id org x)) [
    | inl hit ↦
        let same : x ≡ r = ground arith in
        rw (hit, update-Absent_tail id org f x xs u hit, same) (omega int_laws)
    | inr miss ↦
        rw miss (+ℤ_regroup _ _ _ _ _ (sum_where-update q g id org f xs u.1 (rw miss at e)))
  ]

  -- An insert that is refused where the key is taken keeps the key unique.
  pub any-Absent :
      (q : R → Bool) (id : ℕ) (rs : List R)
      → ((r : R) → k.id_of r ≡ id → q r ≡ true)
      → any q rs ≡ false
      → Absent id rs
  any-Absent q id [] fits e = tt
  any-Absent q id (x ∷ xs) fits e =
      let (here, later) = ||-eq-false _ _ e in
      ((λ same. false≢true (sym here ∙ fits x same)), any-Absent q id xs fits later)
