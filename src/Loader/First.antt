-- ===== src/Loader/First.antt =====
-- A loop that returns its first result, as a search for the first index with a result.
use tartarus_hobby_os.Base.{
  ℕ, sym, zero, suc, ◌+◌, ◌≤◌, ◌<◌, ◌≡◌, refl, ◌⊎◌, inl, inr, arith, Bool-cases, Option, none, some,
  ◌==◌, subst,
}
use tartarus_hobby_os.Loader.EntryPoint.{search}

-- No index from `lo` to below `hi` has a result, or `t` is the result of the first that has one.
abbrev pub NoHit : (ℕ → Option ℕ) → (lo hi : ℕ) → Type 0
NoHit f lo hi = (k : ℕ) → lo ≤ k → k < hi → f k ≡ none

pub record FirstHit (f : ℕ → Option ℕ) (lo hi t : ℕ) : Type 0 where
  pub at : ℕ
  pub inside : (lo ≤ at) × (at < hi)
  pub here : f at ≡ some t
  pub none_before : NoHit f lo at

abbrev Searched : (ℕ → Option ℕ) → (lo hi : ℕ) → Option ℕ → Type 0
Searched f lo hi none = NoHit f lo hi
Searched f lo hi (some t) = FirstHit f lo hi t

module _ (f : ℕ → Option ℕ) where
  NoHit-cons : (lo hi : ℕ) → f lo ≡ none → NoHit f (suc lo) hi → NoHit f lo hi
  NoHit-cons lo hi miss rest k low high = elim (Bool-cases (k == lo)) [
    | inl here ↦ let e : k ≡ lo = ground arith in rw e miss
    | inr later ↦ rest k (ground arith) high
  ]

  Searched-cons :
      (lo hi : ℕ) (r : Option ℕ) → f lo ≡ none → Searched f (suc lo) hi r → Searched f lo hi r
  Searched-cons lo hi none miss rest = NoHit-cons lo hi miss rest
  Searched-cons lo hi (some t) miss rest = record {
    at = rest.at;
    inside = omega (arith, rest.inside);
    here = rest.here;
    none_before = NoHit-cons lo rest.at miss rest.none_before;
  }

  search-Searched : (n lo : ℕ) → Searched f lo (lo + n) (search f n lo)
  unfolding search
  search-Searched zero lo = λ k low high. absurd (omega arith)
  search-Searched (suc n) lo = step (f lo) refl (search-Searched n (suc lo))
    where
      step :
          (r : Option ℕ)
          → f lo ≡ r
          → Searched f (suc lo) (suc lo + n) (search f n (suc lo))
          → Searched f lo (lo + suc n) (elim r [ some t ↦ some t | none ↦ search f n (suc lo) ])
      step none miss rest =
          Searched-cons lo (lo + suc n) (search f n (suc lo)) miss
            (subst (λ hi. Searched f (suc lo) hi (search f n (suc lo))) (omega arith) rest)
      step (some t) hit rest = record {
        at = lo;
        inside = omega arith;
        here = hit;
        none_before = λ k low high. absurd (omega arith);
      }

-- From `lo` to below `hi`, the first index that has a result has the result `t`.
pub record First (P : ℕ → ℕ → Type 0) (lo hi t : ℕ) : Type 0 where
  pub at : ℕ
  pub inside : (lo ≤ at) × (at < hi)
  pub here : P at t
  pub none_before : (k u : ℕ) → lo ≤ k → k < at → ¬ P k u

abbrev pub Nowhere : (ℕ → ℕ → Type 0) → (lo hi : ℕ) → Type 0
Nowhere P lo hi = (k u : ℕ) → lo ≤ k → k < hi → ¬ P k u

lt-eq-gt : (a b : ℕ) → (a < b) ⊎ (a ≡ b) ⊎ (b < a)
lt-eq-gt a b = ground arith

-- A function that finds exactly the results of a predicate, and what a search with it says.
unfoldable pub Decides : (ℕ → Option ℕ) → (ℕ → ℕ → Type 0) → Type 0
Decides f P = ((k t : ℕ) → f k ≡ some t → P k t) × ((k t : ℕ) → P k t → f k ≡ some t)

module _ (f : ℕ → Option ℕ) (P : ℕ → ℕ → Type 0) (decides : Decides f P) where
  Nowhere-NoHit : (lo hi : ℕ) → NoHit f lo hi → Nowhere P lo hi
  unfolding Decides
  Nowhere-NoHit lo hi h k u low high p =
      let miss : f k ≡ none = h k low high in
      let hit : f k ≡ some u = decides.1 k u p in cc (miss, hit)

  First-FirstHit : (lo hi t : ℕ) → FirstHit f lo hi t → First P lo hi t
  unfolding Decides
  First-FirstHit lo hi t h = record {
    at = h.at;
    inside = h.inside;
    here = decides.0 h.at t h.here;
    none_before = Nowhere-NoHit lo h.at h.none_before;
  }

  unfoldable pub Results : (lo hi : ℕ) → Option ℕ → Type 0
  Results lo hi none = Nowhere P lo hi
  Results lo hi (some t) = First P lo hi t

  pub search-Results : (n lo : ℕ) → Results lo (lo + n) (search f n lo)
  unfolding Results
  search-Results n lo = of (search f n lo) (search-Searched f n lo)
    where
      of : (r : Option ℕ) → Searched f lo (lo + n) r → Results lo (lo + n) r
      of none h = Nowhere-NoHit lo (lo + n) h
      of (some t) h = First-FirstHit lo (lo + n) t h

  -- Only one result is the first.
  pub First-search : (n lo t : ℕ) → First P lo (lo + n) t → search f n lo ≡ some t
  unfolding Results Decides
  First-search n lo t first = of (search f n lo) (search-Searched f n lo)
    where
      of : (r : Option ℕ) → Searched f lo (lo + n) r → r ≡ some t
      of none h =
          let miss : f first.at ≡ none = h first.at first.inside.0 first.inside.1 in
          let hit : f first.at ≡ some t = decides.1 first.at t first.here in absurd (cc (miss, hit))
      of (some u) h = elim (lt-eq-gt h.at first.at) [
        | inl before ↦ absurd (first.none_before h.at u h.inside.0 before (decides.0 h.at u h.here))
        | inr (inl same) ↦
            let hit : f first.at ≡ some t = decides.1 first.at t first.here in
            let here : f first.at ≡ some u = rw (sym same) h.here in cc (hit, here)
        | inr (inr after) ↦
            let miss : f first.at ≡ none = h.none_before first.at first.inside.0 after in
            let hit : f first.at ≡ some t = decides.1 first.at t first.here in
            absurd (cc (miss, hit))
      ]

pub search-First :
    (f : ℕ → Option ℕ) (P : ℕ → ℕ → Type 0)
    → Decides f P
    → (n lo t : ℕ) → search f n lo ≡ some t
    → First P lo (lo + n) t
unfolding Results
search-First f P decides n lo t e =
    subst (Results f P decides lo (lo + n)) e (search-Results f P decides n lo)
