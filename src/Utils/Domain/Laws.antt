-- ===== src/Utils/Domain/Laws.antt =====
-- What `generateDomain` returns.
use tgvejs.Prelude.{
  append-nil, append_assoc, String, ◌≡◌, refl, sym, ap, subst, false≢true, ◌∙◌, ◌⊎◌, inl, inr, Bool,
  true, false, not, ◌&&◌, ◌||◌, Option, none, some, List, [], ◌∷◌, ◌++◌, str_eq, arith, Bool-cases,
  if◌then◌else◌,
}
use tgvejs.Js.{Value, num, Floats, to_number, truthy, same_value, same_value_iff}
use tgvejs.Js.Collection.{
  contains, Distinct, unique, unique-Distinct, contains-unique, All-of_contains, contains-append,
}
use tgvejs.Js.Sort.{sort, IsSorted, IsComparison, sort-IsSorted, sort-Distinct, contains-sort}
use tgvejs.Geojson.{Feature, read}
use tgvejs.Utils.Domain.{subtracts, domain_key, Domain, domain_step, domain_scan, generate_domain}

module _ (F : Floats) where
  open F use {Num}

  -- What the loop keeps true: a value that it collects is not falsy, and while every one could be
  -- read as a number they are numbers.
  pub record Collected (column : String) (s : Domain F) : Type 0 where
    pub kept :
        str_eq column "Mean.Travel.Time..Seconds." ≡ false
        → (v : Value Num) → contains F s.domain v ≡ true
        → truthy F v ≡ true
    pub numbers :
        s.numeric ≡ true → (v : Value Num) → contains F s.domain v ≡ true → (a : Num) × (v ≡ num a)

  all_snoc :
      (P : Value Num → Type 0) (xs : List (Value Num)) (x : Value Num)
      → ((v : Value Num) → contains F xs v ≡ true → P v)
      → P x
      → (v : Value Num) → contains F (xs ++ x ∷ []) v ≡ true
      → P v
  unfolding contains
  all_snoc P xs x all p v h = elim (Bool-cases (same_value F x v)) [
    | inl e ↦ subst P ((same_value_iff F x v).0 e) p
    | inr e ↦ all v (ground (arith, contains-append F xs (x ∷ []) v))
  ]

  domain_step-Collected :
      (column : String) (s : Domain F) (f : Feature Num)
      → Collected column s
      → Collected column (domain_step F column s f)
  unfolding domain_step
  domain_step-Collected column s f c =
      let i = read f.properties (domain_key F f column) in
      let n = to_number F i in
      elim (Bool-cases (truthy F i)) [
        | inr e ↦ rw e c
        | inl e ↦ elim (Bool-cases (truthy F (num n))) [
          | inr z ↦
              rw (e, z)
                (record {
                  kept = λ named. all_snoc (λ v. truthy F v ≡ true) s.domain i (c.kept named) e;
                  numbers = λ no. absurd (false≢true no);
                })
          | inl z ↦ elim (Bool-cases (str_eq column "Mean.Travel.Time..Seconds.")) [
            | inl t ↦
                rw (e, z, t)
                  (record {
                    kept = λ named. absurd (false≢true (sym named ∙ t));
                    numbers = λ yes_.
                        all_snoc (λ v. (a : Num) × (v ≡ num a)) s.domain _ (c.numbers yes_)
                          (_, refl);
                  })
            | inr t ↦
                rw (e, z, t)
                  (record {
                    kept = λ named.
                        all_snoc (λ v. truthy F v ≡ true) s.domain (num n) (c.kept named) z;
                    numbers = λ yes_.
                        all_snoc (λ v. (a : Num) × (v ≡ num a)) s.domain _ (c.numbers yes_)
                          (_, refl);
                  })
          ]
        ]
      ]

  domain_scan-Collected :
      (column : String) (s : Domain F) (fs : List (Feature Num))
      → Collected column s
      → Collected column (domain_scan F column s fs)
  unfolding domain_scan
  domain_scan-Collected column s [] c = c
  domain_scan-Collected column s (f ∷ fs) c =
      domain_scan-Collected column (domain_step F column s f) fs
        (domain_step-Collected column s f c)

  -- What a feature adds to the domain, if anything.
  unfoldable pub entry : String → Feature Num → Option (Value Num)
  entry column f =
      let i = read f.properties (domain_key F f column) in
      let n = to_number F i in
      if not (truthy F i)
      then none
      else if not (truthy F (num n))
      then some i
      else if str_eq column "Mean.Travel.Time..Seconds."
      then some (num (F.floor (F.div n (F.of_nat 300))))
      else some (num n)

  unfoldable pub entries : String → List (Feature Num) → List (Value Num)
  unfolding entry
  entries column [] = []
  entries column (f ∷ fs) = elim (entry column f) [
    | none ↦ entries column fs
    | some v ↦ v ∷ entries column fs
  ]

  -- Each value of the column is falsy or can be read as a number that is not.
  unfoldable pub all_numeric : String → List (Feature Num) → Bool
  all_numeric column [] = true
  all_numeric column (f ∷ fs) =
      let i = read f.properties (domain_key F f column) in
      (not (truthy F i) || truthy F (num (to_number F i))) && all_numeric column fs

  domain_scan-entries :
      (column : String) (s : Domain F) (fs : List (Feature Num))
      → (domain_scan F column s fs).domain ≡ s.domain ++ entries column fs
  unfolding domain_scan entries
  domain_scan-entries column s [] = sym (append-nil s.domain)
  domain_scan-entries column s (f ∷ fs) =
      let i = read f.properties (domain_key F f column) in
      let n = num (to_number F i) in
      let binned = num (F.floor (F.div (to_number F i) (F.of_nat 300))) in
      ground (
        arith,
        domain_scan-entries column (domain_step F column s f) fs,
        append_assoc s.domain (i ∷ []) (entries column fs),
        append_assoc s.domain (n ∷ []) (entries column fs),
        append_assoc s.domain (binned ∷ []) (entries column fs),
      )

  domain_scan-numeric :
      (column : String) (s : Domain F) (fs : List (Feature Num))
      → (domain_scan F column s fs).numeric ≡ (s.numeric && all_numeric column fs)
  unfolding domain_scan all_numeric
  domain_scan-numeric column s [] = ground arith
  domain_scan-numeric column s (f ∷ fs) =
      ground (arith, domain_scan-numeric column (domain_step F column s f) fs)

  -- A domain names no value twice; it has the values that the features add; none of them is falsy
  -- (but for binned travel times); and if all can be read as numbers, it consists of numbers in
  -- ascending order.
  pub record IsDomain (column : String) (fs : List (Feature Num)) (r : List (Value Num))
      : Type 0 where
    pub distinct : Distinct F r
    pub member : (v : Value Num) → contains F r v ≡ contains F (entries column fs) v
    pub kept :
        (v : Value Num)
        → contains F r v ≡ true
        → (truthy F v ≡ true) ⊎ (str_eq column "Mean.Travel.Time..Seconds." ≡ true)
    pub numbers :
        (all_numeric column fs ≡ false)
        ⊎ (IsSorted (subtracts F) r
            × ((v : Value Num) → contains F r v ≡ true → (a : Num) × (v ≡ num a)))

  abbrev start : Domain F
  start = record { numeric = true; domain = [] }

  start-Collected : (column : String) → Collected column start
  unfolding contains
  start-Collected column = record {
    kept = λ _ v h. absurd (false≢true h);
    numbers = λ _ v h. absurd (false≢true h);
  }

  scan-Collected :
      (column : String) (fs : List (Feature Num)) → Collected column (domain_scan F column start fs)
  scan-Collected column fs = domain_scan-Collected column start fs (start-Collected column)

  kept-entries :
      (column : String) (fs : List (Feature Num)) (v : Value Num)
      → contains F (entries column fs) v ≡ true
      → (truthy F v ≡ true) ⊎ (str_eq column "Mean.Travel.Time..Seconds." ≡ true)
  kept-entries column fs v h = elim (Bool-cases (str_eq column "Mean.Travel.Time..Seconds.")) [
    | inl e ↦ inr e
    | inr e ↦ inl (
        (scan-Collected column fs).kept e v
          (ap (λ l. contains F l v) (domain_scan-entries column start fs) ∙ h))
  ]

  -- The unique entries, sorted or not, in one record.
  IsDomain-of :
      (column : String) (fs : List (Feature Num)) (r : List (Value Num))
      → Distinct F r
      → ((v : Value Num) → contains F r v ≡ contains F (entries column fs) v)
      → (all_numeric column fs ≡ false) ⊎ IsSorted (subtracts F) r
      → IsDomain column fs r
  IsDomain-of column fs r d m sorted = record {
    distinct = d;
    member = m;
    kept = λ v h. kept-entries column fs v (sym (m v) ∙ h);
    numbers = elim sorted [
      | inl e ↦ inl e
      | inr o ↦ elim (Bool-cases (all_numeric column fs)) [
        | inr e ↦ inl e
        | inl e ↦ inr (
          o,
          λ v h.
              (scan-Collected column fs).numbers (domain_scan-numeric column start fs ∙ e) v
                (ap (λ l. contains F l v) (domain_scan-entries column start fs) ∙ sym (m v) ∙ h),
        )
      ]
    ];
  }

  -- For a column with a name and features to look at there is a domain, if the subtraction compares
  -- the values that the features add where all of them are numeric.
  pub generate_domain-IsDomain :
      (column : String) (f : Feature Num) (fs : List (Feature Num))
      → str_eq column "" ≡ false
      → (all_numeric column (f ∷ fs) ≡ true
          → IsComparison (subtracts F) (λ v. contains F (entries column (f ∷ fs)) v ≡ true))
      → (r : List (Value Num)) × (generate_domain F (some (f ∷ fs)) column ≡ some r)
        × IsDomain column (f ∷ fs) r
  unfolding generate_domain
  generate_domain-IsDomain column f fs named laws =
      let es = entries column (f ∷ fs) in
      let e1 = domain_scan-entries column start (f ∷ fs) in
      let e2 = domain_scan-numeric column start (f ∷ fs) in
      elim (Bool-cases (all_numeric column (f ∷ fs))) [
        | inl e ↦ (
          sort (subtracts F) (unique F es),
          rw (named, e1, e2, e) refl,
          IsDomain-of column (f ∷ fs) _ (sort-Distinct F (subtracts F) _ (unique-Distinct F es))
              (λ v. contains-sort F (subtracts F) (unique F es) v ∙ contains-unique F es v)
              (inr (
                sort-IsSorted (subtracts F) (λ v. contains F es v ≡ true) (laws e) (unique F es)
                  (All-of_contains F _ (unique F es) (λ v h. sym (contains-unique F es v) ∙ h)))),
        )
        | inr e ↦ (
          unique F es,
          rw (named, e1, e2, e) refl,
          IsDomain-of column (f ∷ fs) _ (unique-Distinct F es) (contains-unique F es) (inl e),
        )
      ]
