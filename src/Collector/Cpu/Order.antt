-- ===== src/Collector/Cpu/Order.antt =====
-- The order of the cores that `CalculateCPUUsage` of internal/collector/cpu.go returns.
use sugi.Base.{
  ◌≡◌, refl, sym, ap, ◌∙◌, arith, Option, none, some, List, [], ◌∷◌, All, Bool-cases, inl, inr,
}
use sugi.Base.Int.{ℤ, ◌≤ℤ◌, ltb_ℤ}
use sugi.Base.Text.{Text, text_eq, text_eq_iff}
use sugi.Base.Dict.{lookup}
use sugi.Model.Time.{Instant}
use sugi.Model.Metrics.{CpuTicks, CoreUsage}
use sugi.Collector.Float.{Float64}
use sugi.Collector.Cpu.{
  Ticks, core_index, insert_by, sort_by, core_ids, core_usages, calculate_cpu_usage,
  calculate_delta, usage_of, add_usage,
}
use sugi.Collector.Cpu.Parse.{Labelled}

module _ {ℓ} {A : Type ℓ} (key : A → ℤ) where
  -- Each key is at most all those behind it.
  abbrev pub Ascending : List A → Type 0
  Ascending [] = Unit
  Ascending (a ∷ bs) = All (λ b. key a ≤ℤ key b) bs × Ascending bs

  All-insert_by :
      (P : A → Type 0) (a : A) (bs : List A) → P a → All P bs → All P (insert_by key a bs)
  unfolding insert_by
  All-insert_by P a [] p h = (p, tt)
  All-insert_by P a (b ∷ bs) p h = elim (Bool-cases (ltb_ℤ (key b) (key a))) [
    | inl less ↦ rw less (h.0, All-insert_by P a bs p h.1)
    | inr more ↦ rw more (p, h)
  ]

  le-All :
      (a b : A) (bs : List A)
      → key a ≤ℤ key b
      → All (λ c. key b ≤ℤ key c) bs
      → All (λ c. key a ≤ℤ key c) bs
  le-All a b [] le h = tt
  le-All a b (c ∷ bs) le h = (omega arith, le-All a b bs le h.1)

  insert_by-Ascending : (a : A) (bs : List A) → Ascending bs → Ascending (insert_by key a bs)
  unfolding insert_by
  insert_by-Ascending a [] h = (tt, tt)
  insert_by-Ascending a (b ∷ bs) h = elim (Bool-cases (ltb_ℤ (key b) (key a))) [
    | inl less ↦
        rw less (
          All-insert_by (λ c. key b ≤ℤ key c) a bs (ground arith) h.0,
          insert_by-Ascending a bs h.1,
        )
    | inr more ↦ let le : key a ≤ℤ key b = ground arith in rw more ((le, le-All a b bs le h.0), h)
  ]

  pub sort_by-Ascending : (bs : List A) → Ascending (sort_by key bs)
  unfolding sort_by
  sort_by-Ascending [] = tt
  sort_by-Ascending (a ∷ bs) = insert_by-Ascending a (sort_by key bs) (sort_by-Ascending bs)

-- A looked-up entry of labelled ticks carries the label that was asked for.
lookup-label :
    (k : Text) (m : Ticks) {t : CpuTicks} → All Labelled m → lookup k m ≡ some t → t.id ≡ k
unfolding lookup
lookup-label k [] h e = cc
lookup-label k ((j, t) ∷ m) h e = elim (Bool-cases (text_eq j k)) [
  | inl same ↦ ground (arith, e, text_eq_iff j k)
  | inr other ↦ lookup-label k m h.1 (rw other at e)
]

module _ (f : Float64) where
  abbrev usage_key : CoreUsage f.F → ℤ
  usage_key u = core_index u.id

  id-calculate_delta : (p c : CpuTicks) → (calculate_delta f p c).id ≡ c.id
  unfolding calculate_delta
  id-calculate_delta p c = ground arith

  usage_of-id :
      (prev curr : Option CpuTicks) (id : Text) {u : CoreUsage f.F}
      → ((c : CpuTicks) → curr ≡ some c → c.id ≡ id)
      → usage_of f prev curr ≡ some u
      → u.id ≡ id
  usage_of-id none curr id label e = cc
  usage_of-id (some p) none id label e = cc
  usage_of-id (some p) (some c) id {u} label e =
      let k : calculate_delta f p c ≡ u = cc in
      ap (λ (v : CoreUsage f.F). v.id) (sym k) ∙ id-calculate_delta p c ∙ label c refl

  -- The core of a label carries that label.
  id-usage :
      (id : Text) (prev curr : Ticks) (u : CoreUsage f.F)
      → All Labelled curr
      → usage_of f (lookup id prev) (lookup id curr) ≡ some u
      → u.id ≡ id
  id-usage id prev curr u h =
      usage_of-id (lookup id prev) (lookup id curr) id (λ c. lookup-label id curr h)

  All-add_usage :
      (P : CoreUsage f.F → Type 0) (o : Option (CoreUsage f.F)) (us : List (CoreUsage f.F))
      → ((u : CoreUsage f.F) → o ≡ some u → P u)
      → All P us
      → All P (add_usage f o us)
  All-add_usage P none us p h = h
  All-add_usage P (some u) us p h = (p u refl, h)

  Ascending-add_usage :
      (o : Option (CoreUsage f.F)) (us : List (CoreUsage f.F))
      → ((u : CoreUsage f.F) → o ≡ some u → All (λ v. usage_key u ≤ℤ usage_key v) us)
      → Ascending usage_key us
      → Ascending usage_key (add_usage f o us)
  Ascending-add_usage none us p h = h
  Ascending-add_usage (some u) us p h = (p u refl, h)

  core_usages-le :
      (id : Text) (ids : List Text) (prev curr : Ticks)
      → All Labelled curr
      → All (λ b. core_index id ≤ℤ core_index b) ids
      → All (λ u. core_index id ≤ℤ usage_key u) (core_usages f prev curr ids)
  unfolding core_usages
  core_usages-le id [] prev curr h le = tt
  core_usages-le id (b ∷ ids) prev curr h le =
      All-add_usage (λ u. core_index id ≤ℤ usage_key u) (usage_of f (lookup b prev) (lookup b curr))
        (core_usages f prev curr ids) (λ u e. rw (id-usage b prev curr u h e) le.0)
        (core_usages-le id ids prev curr h le.1)

  core_usages-Ascending :
      (prev curr : Ticks) (ids : List Text)
      → All Labelled curr
      → Ascending core_index ids
      → Ascending usage_key (core_usages f prev curr ids)
  unfolding core_usages
  core_usages-Ascending prev curr [] h asc = tt
  core_usages-Ascending prev curr (id ∷ ids) h asc =
      Ascending-add_usage (usage_of f (lookup id prev) (lookup id curr))
        (core_usages f prev curr ids)
        (λ u e. rw (id-usage id prev curr u h e) (core_usages-le id ids prev curr h asc.0))
        (core_usages-Ascending prev curr ids h asc.1)

  -- `CalculateCPUUsage` returns the cores in ascending order of their indices, for ticks as
  -- `ParseProcStat` returns them.
  pub cores-Ascending :
      (now : Instant) (prev curr : Ticks)
      → All Labelled curr
      → Ascending
          (λ (u : CoreUsage f.F). core_index u.id)
          (calculate_cpu_usage f now prev curr).cores
  unfolding calculate_cpu_usage
  cores-Ascending now prev curr h =
      core_usages-Ascending prev curr (sort_by core_index (core_ids curr)) h
        (sort_by-Ascending core_index (core_ids curr))
