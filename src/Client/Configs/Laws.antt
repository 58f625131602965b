-- ===== src/Client/Configs/Laws.antt =====
-- The ways through NewForConfig of pkg/client/clientset/versioned/clientset.go, and what
-- NewForConfigOrDie does otherwise.
use csr.Base.{
  ◌≡◌, ◌∙◌, ◌⊎◌, ◌&&◌, refl, ap, sym, true, false, none, some, Option, Result, ok, err, inl, inr,
  Result-cases, Bool-cases, arith,
}
use mathlib.Core.Path.{ap₂}
use csr.Client.Configs.{
  is_nil, needs_limiter, Transport, Config, Makers, Clientset, set_config_defaults, with_limiter,
  new_sources_for_config, new_sources_for_config_or_die, panicking, make_both, new_for_config,
  new_for_config_or_die,
}

abbrev Outcome : Transport → Type 0
Outcome T = Result T.Error (Clientset T) × T.Heap

-- The runs `out` of the two constructors in turn, from one configuration.
pub data BothRun {T : Transport} (mk : Makers T) (c : Config T) (heap : T.Heap) (out : Outcome T)
    : Type 0 where
  no_sources :
      (e : T.Error)
      → (mk.rest_client_for (set_config_defaults c) heap).0 ≡ err e
      → out ≡ (err e, (mk.rest_client_for (set_config_defaults c) heap).1)
      → BothRun mk c heap out
  no_discovery :
      (client : T.RestClient) (e : T.Error)
      → (mk.rest_client_for (set_config_defaults c) heap).0 ≡ ok client
      → (mk.new_discovery_client_for_config c (mk.rest_client_for (set_config_defaults c) heap).1).0
        ≡ err e
      → out ≡ (
        err e,
        (mk.new_discovery_client_for_config c
            (mk.rest_client_for (set_config_defaults c) heap).1).1,
      )
      → BothRun mk c heap out
  both :
      (client : T.RestClient) (discovery : T.DiscoveryClient)
      → (mk.rest_client_for (set_config_defaults c) heap).0 ≡ ok client
      → (mk.new_discovery_client_for_config c (mk.rest_client_for (set_config_defaults c) heap).1).0
        ≡ ok discovery
      → out ≡ (
        ok (record {
          discovery_client = discovery;
          sources_v1alpha1 = record { rest_client = client };
        }),
        (mk.new_discovery_client_for_config c
            (mk.rest_client_for (set_config_defaults c) heap).1).1,
      )
      → BothRun mk c heap out

module _ {T : Transport} (mk : Makers T) (c : Config T) (heap : T.Heap) where
  make_both-BothRun : BothRun mk c heap (make_both mk c heap)
  unfolding make_both new_sources_for_config
  make_both-BothRun = elim (Result-cases (mk.rest_client_for (set_config_defaults c) heap).0) [
    | inr (e, p) ↦ no_sources e p (rw p)
    | inl (client, p) ↦
        elim (Result-cases
          (mk.new_discovery_client_for_config c
            (mk.rest_client_for (set_config_defaults c) heap).1).0) [
              | inr (e, q) ↦ no_discovery client e p q (rw (p, q))
              | inl (discovery, q) ↦ both client discovery p q (rw (p, q))
            ]
  ]

-- The runs `out` of the step that adds a limiter.
pub data LimitRun {T : Transport} (c : Config T) (heap : T.Heap) (out : Config T × T.Heap)
    : Type 0 where
  unlimited : T.is_positive c.qps ≡ false → out ≡ (c, heap) → LimitRun c heap out
  given : (l : T.Limiter) → c.rate_limiter ≡ some l → out ≡ (c, heap) → LimitRun c heap out
  added :
      T.is_positive c.qps ≡ true
      → c.rate_limiter ≡ none
      → out ≡ (
        record c { rate_limiter = some (T.new_token_bucket_rate_limiter c.qps c.burst heap).0 },
        (T.new_token_bucket_rate_limiter c.qps c.burst heap).1,
      )
      → LimitRun c heap out

Option-cases : {A : Type 0} (x : Option A) → ((a : A) × (x ≡ some a)) ⊎ (x ≡ none)
Option-cases (some a) = inl (a, refl)
Option-cases none = inr refl

module _ {T : Transport} (mk : Makers T) (c : Config T) (heap : T.Heap) where
  needs_limiter-of_some : (l : T.Limiter) → c.rate_limiter ≡ some l → needs_limiter c ≡ false
  needs_limiter-of_some l p = ap (λ x. is_nil x && T.is_positive c.qps) p

  needs_limiter-of_unlimited : T.is_positive c.qps ≡ false → needs_limiter c ≡ false
  needs_limiter-of_unlimited slow = ground (arith, ap (λ x. is_nil c.rate_limiter && x) slow)

  with_limiter-of_no_need : needs_limiter c ≡ false → with_limiter c heap ≡ (c, heap)
  unfolding with_limiter
  with_limiter-of_no_need p = rw p

  with_limiter-LimitRun : LimitRun c heap (with_limiter c heap)
  unfolding with_limiter
  with_limiter-LimitRun = elim (Bool-cases (T.is_positive c.qps)) [
    | inr slow ↦ unlimited slow (with_limiter-of_no_need (needs_limiter-of_unlimited slow))
    | inl fast ↦ elim (Option-cases c.rate_limiter) [
      | inl (l, p) ↦ given l p (with_limiter-of_no_need (needs_limiter-of_some l p))
      | inr p ↦ added fast p (rw (ap₂ (λ x y. is_nil x && y) p fast) refl)
    ]
  ]

  -- NewForConfig adds a limiter exactly if the caller wants a limit and brings none, makes both
  -- clients of that one configuration, to which only the resource's client adds the defaults of its
  -- group, and makes nothing more after an error.
  pub new_for_config-BothRun :
      LimitRun c heap (with_limiter c heap)
      × BothRun mk (with_limiter c heap).0 (with_limiter c heap).1 (new_for_config mk c heap)
  unfolding new_for_config
  new_for_config-BothRun =
      (with_limiter-LimitRun, make_both-BothRun mk (with_limiter c heap).0 (with_limiter c heap).1)

  -- As client-go documents it, its `OrDie` panics with the error of the other constructor.
  abbrev pub IsOrDie : Type 0
  IsOrDie =
      (c : Config T) (heap : T.Heap)
      → mk.new_discovery_client_for_config_or_die c heap ≡ (
        panicking (mk.new_discovery_client_for_config c heap).0,
        (mk.new_discovery_client_for_config c heap).1,
      )

  make_both-panicking :
      IsOrDie
      → new_for_config_or_die mk c heap
        ≡ (panicking (make_both mk c heap).0, (make_both mk c heap).1)
  unfolding new_for_config_or_die new_sources_for_config_or_die make_both new_sources_for_config
  make_both-panicking documented =
      elim (Result-cases (mk.rest_client_for (set_config_defaults c) heap).0) [
        | inr (e, p) ↦ rw p
        | inl (client, p) ↦
            elim (Result-cases
              (mk.new_discovery_client_for_config c
                (mk.rest_client_for (set_config_defaults c) heap).1).0) [
                  | inr (e, q) ↦ rw (p, documented, q)
                  | inl (discovery, q) ↦ rw (p, documented, q)
                ]
      ]

  same_copy : needs_limiter c ≡ false → make_both mk c heap ≡ new_for_config mk c heap
  unfolding new_for_config
  same_copy p = ap (λ x. make_both mk x.0 x.1) (sym (with_limiter-of_no_need p))

  without_need :
      (T.is_positive c.qps ≡ false) ⊎ ((l : T.Limiter) × (c.rate_limiter ≡ some l))
      → needs_limiter c ≡ false
  without_need (inl slow) = needs_limiter-of_unlimited slow
  without_need (inr (l, p)) = needs_limiter-of_some l p

  -- Where the caller brings a limiter or asks for no limit, and client-go's own OrDie constructor
  -- panics with the error of the other one, NewForConfigOrDie makes the same clients as NewForConfig,
  -- and panics with the error that NewForConfig returns, after the same calls.
  pub new_for_config_or_die-eq :
      IsOrDie
      → (T.is_positive c.qps ≡ false) ⊎ ((l : T.Limiter) × (c.rate_limiter ≡ some l))
      → new_for_config_or_die mk c heap
        ≡ (panicking (new_for_config mk c heap).0, (new_for_config mk c heap).1)
  new_for_config_or_die-eq documented need =
      make_both-panicking documented
      ∙ ap (λ x. (panicking x.0, x.1)) (same_copy (without_need need))
