-- ===== src/Sync/Network.antt =====
-- A vault folder with any number of devices, as a step relation: each step is one device that issues
-- a stamp or receives one, whoever made it.
use mathlib.Core.Logic.{ite, if_pos, if_neg}
use clipy_si_core.Common.{
  ℕ, zero, suc, ◌+◌, ◌<◌, ◌≤◌, ◌≡◌, ◌≢◌, refl, sym, subst, ap, ◌∙◌, Option, none, some, List, [],
  ◌∷◌, arith, All, OnSome,
}
use clipy_si_core.Common.Int.{ℤ, pos, ◌≤ℤ◌, IsI64}
use clipy_si_core.Record.{Hlc}
use clipy_si_core.Sync.{hlc_next, hlc_receive, max_drift_millis}
use clipy_si_core.Sync.History
use clipy_si_core.Sync.History.{
  AtMost, Covers, IsWithin, IsTimely, issue_step, receive_step, AtMost-refl,
}
use clipy_si_core.Sync.Order.{Before}

-- The clock of each device, and the stamps issued so far, newest first.
pub record Network (Uuid : Type 0) : Type 0 where
  pub clocks : Uuid → Option (Hlc Uuid)
  pub published : List (Hlc Uuid)

module _ {Uuid : Type 0} where
  -- No stamp occurs twice.
  abbrev pub Distinct : List (Hlc Uuid) → Type 0
  Distinct [] = Unit {0}
  Distinct (h ∷ hs) = All (λ p. h ≢ p) hs × Distinct hs

  hlc_next-node :
      (clock : Option (Hlc Uuid)) (now : ℤ) (node : Uuid) → (hlc_next clock now node).node ≡ node
  unfolding hlc_next
  hlc_next-node none now node = refl
  hlc_next-node (some c) now node = ground arith

  not-Before : (a : Hlc Uuid) → ¬ Before a a
  not-Before a h = ground arith

  Before-AtMost : (a c : Hlc Uuid) → Before a c → AtMost a c
  Before-AtMost a c h = ground arith

module _ {Uuid : Type 0} (same : Discrete Uuid) where
  abbrev pub put : (Uuid → Option (Hlc Uuid)) → Uuid → Hlc Uuid → Uuid → Option (Hlc Uuid)
  put clocks node h n = ite (same n node) (some h) (clocks n)

  -- The folder after `k` stamps were issued, with all local times at most `b`.
  pub data Reach (b : ℕ) : ℕ → Network Uuid → Type 0 where
    start : Reach b zero (record { clocks = λ n. none; published = [] })
    issue :
        {k : ℕ} {w : Network Uuid} (node : Uuid) (now : ℤ)
        → Reach b k w
        → IsI64 now
        → now ≤ℤ pos b
        → Reach b (suc k) (record {
          clocks = put w.clocks node (hlc_next (w.clocks node) now node);
          published = hlc_next (w.clocks node) now node ∷ w.published;
        })
    receive :
        {k : ℕ} {w : Network Uuid} (node : Uuid) (remote : Hlc Uuid) (now : ℤ)
        → Reach b k w
        → IsTimely b (History.receive remote now)
        → Reach b k (record {
          clocks = put w.clocks node (hlc_receive (w.clocks node) remote now node);
          published = w.published;
        })

  record IsConsistent (m : ℕ) (w : Network Uuid) : Type 0 where
    within : (n : Uuid) → OnSome (IsWithin m) (w.clocks n)
    covered : All (λ p. Covers (some p) (w.clocks p.node)) w.published
    distinct : Distinct w.published

  IsWithin-mono :
      (l m : ℕ) (clock : Option (Hlc Uuid))
      → l ≤ m
      → OnSome (IsWithin l) clock
      → OnSome (IsWithin m) clock
  IsWithin-mono l m none h w = tt
  IsWithin-mono l m (some c) h w = ground arith

  put-OnSome :
      (P : Hlc Uuid → Type 0) (clocks : Uuid → Option (Hlc Uuid)) (node : Uuid) (h : Hlc Uuid)
      (n : Uuid)
      → P h
      → OnSome P (clocks n)
      → OnSome P (put clocks node h n)
  put-OnSome P clocks node h n p q = elim (same n node) [
    | yes e ↦ rw (if_pos _ e) p
    | no e ↦ rw (if_neg _ e) q
  ]

  put_at :
      (P : Option (Hlc Uuid) → Type 0) (clocks : Uuid → Option (Hlc Uuid)) (node : Uuid)
      (h : Hlc Uuid) (n : Uuid)
      → n ≡ node
      → P (some h)
      → P (put clocks node h n)
  put_at P clocks node h n e p = rw (if_pos _ e) p

  -- A clock that moves on covers what it covered before.
  put-Covers :
      (clocks : Uuid → Option (Hlc Uuid)) (node : Uuid) (h p : Hlc Uuid)
      → (Covers (some p) (clocks node) → AtMost p h)
      → Covers (some p) (clocks p.node)
      → Covers (some p) (put clocks node h p.node)
  put-Covers clocks node h p f c = elim (same p.node node) [
    | yes e ↦ rw (if_pos _ e) (f (subst (λ n. Covers (some p) (clocks n)) e c))
    | no e ↦ rw (if_neg _ e) c
  ]

  All-put-Covers :
      (clocks : Uuid → Option (Hlc Uuid)) (node : Uuid) (h : Hlc Uuid)
      → ((p : Hlc Uuid) → Covers (some p) (clocks node) → AtMost p h)
      → (ps : List (Hlc Uuid)) → All (λ p. Covers (some p) (clocks p.node)) ps
      → All (λ p. Covers (some p) (put clocks node h p.node)) ps
  All-put-Covers clocks node h f [] c = tt
  All-put-Covers clocks node h f (p ∷ ps) c =
      (put-Covers clocks node h p (f p) c.0, All-put-Covers clocks node h f ps c.1)

  -- A stamp that comes after all that the device's clock covers is new.
  new-Distinct :
      (clocks : Uuid → Option (Hlc Uuid)) (node : Uuid) (h : Hlc Uuid)
      → h.node ≡ node
      → ((p : Hlc Uuid) → Covers (some p) (clocks node) → Before p h)
      → (ps : List (Hlc Uuid)) → All (λ p. Covers (some p) (clocks p.node)) ps
      → All (λ p. h ≢ p) ps
  new-Distinct clocks node h e f [] c = tt
  new-Distinct clocks node h e f (p ∷ ps) c = (
    λ eq.
        let on_node =
          subst (λ n. Covers (some p) (clocks n)) (ap (λ q. Hlc.node q) (sym eq) ∙ e) c.0 in
        not-Before h (subst (λ q. Before q h) (sym eq) (f p on_node)),
    new-Distinct clocks node h e f ps c.1,
  )

  Reach-IsConsistent :
      {b k : ℕ} {w : Network Uuid}
      → Reach b k w
      → b + max_drift_millis + k < 0x7fff_ffff_ffff_ffff
      → IsConsistent (b + max_drift_millis + k) w
  Reach-IsConsistent start l = record { within = λ n. tt; covered = tt; distinct = tt }
  Reach-IsConsistent {b} (issue {k} {w} node now r n t) l =
      let m = b + max_drift_millis + k in
      let c = Reach-IsConsistent r (omega arith) in
      let h = hlc_next (w.clocks node) now node in
      let f = λ (p : Hlc Uuid) (cov : Covers (some p) (w.clocks node)).
        (issue_step node (some p) (w.clocks node) now m cov (c.within node) n (omega arith)
          (omega arith)).0 in
      let wi =
        (issue_step node none (w.clocks node) now m tt (c.within node) n (omega arith)
          (omega arith)).1 in
      record {
        within = λ x.
            put-OnSome (IsWithin (b + max_drift_millis + suc k)) w.clocks node h x
              (IsWithin-mono (m + 1) (b + max_drift_millis + suc k) (some h) (omega arith) wi)
              (IsWithin-mono m (b + max_drift_millis + suc k) (w.clocks x) (omega arith)
                (c.within x));
        covered = (
          put_at (λ d. Covers (some h) d) w.clocks node h h.node
              (hlc_next-node (w.clocks node) now node) (AtMost-refl h),
          All-put-Covers w.clocks node h (λ p cov. Before-AtMost p h (f p cov)) w.published
              c.covered,
        );
        distinct = (
          new-Distinct w.clocks node h (hlc_next-node (w.clocks node) now node) f w.published
              c.covered,
          c.distinct,
        );
      }
  Reach-IsConsistent {b} (receive {k} {w} node remote now r t) l =
      let m = b + max_drift_millis + k in
      let c = Reach-IsConsistent r l in
      let h = hlc_receive (w.clocks node) remote now node in
      let f = λ (p : Hlc Uuid) (cov : Covers (some p) (w.clocks node)).
        (receive_step node (some p) (w.clocks node) remote now b m cov (c.within node) t
          (omega arith)).0 in
      let wi =
        (receive_step node none (w.clocks node) remote now b m tt (c.within node) t
          (omega arith)).1 in
      record {
        within = λ x. put-OnSome (IsWithin m) w.clocks node h x wi (c.within x);
        covered = All-put-Covers w.clocks node h f w.published c.covered;
        distinct = c.distinct;
      }

  -- However many devices issue and receive stamps, in any order, no two issued stamps are equal, as
  -- long as the received stamps are in the machine ranges and the local times stay at most `b`,
  -- with `b`, the drift and the number of issued stamps together below the last millisecond.
  pub published-Distinct :
      {b k : ℕ} {w : Network Uuid}
      → Reach b k w
      → b + max_drift_millis + k < 0x7fff_ffff_ffff_ffff
      → Distinct w.published
  published-Distinct r l = (Reach-IsConsistent r l).distinct

  covered_wall :
      (clocks : Uuid → Option (Hlc Uuid)) (m : ℕ)
      → ((n : Uuid) → OnSome (IsWithin m) (clocks n))
      → (ps : List (Hlc Uuid)) → All (λ p. Covers (some p) (clocks p.node)) ps
      → All (λ p. p.wall_millis ≤ℤ pos m) ps
  covered_wall clocks m h [] c = tt
  covered_wall clocks m h (p ∷ ps) c =
      (below (clocks p.node) (h p.node) c.0, covered_wall clocks m h ps c.1)
    where
      below :
          (clock : Option (Hlc Uuid))
          → OnSome (IsWithin m) clock
          → Covers (some p) clock
          → p.wall_millis ≤ℤ pos m
      below none w k = absurd k
      below (some d) w k = ground arith

  -- No device can drag the others' clocks ahead: however devices issue and receive stamps, in any
  -- order, the received ones being any stamps in the machine ranges, every clock stays in the
  -- machine ranges, and no clock and no issued stamp has a wall above `b`, the drift and the number
  -- of issued stamps together, where `b` bounds the local times and that sum is below the last
  -- millisecond.
  pub Reach-IsWithin :
      {b k : ℕ} {w : Network Uuid}
      → Reach b k w
      → b + max_drift_millis + k < 0x7fff_ffff_ffff_ffff
      → ((n : Uuid) → OnSome (IsWithin (b + max_drift_millis + k)) (w.clocks n))
        × All (λ p. p.wall_millis ≤ℤ pos (b + max_drift_millis + k)) w.published
  Reach-IsWithin {b} {k} {w} r l =
      let c = Reach-IsConsistent r l in
      (c.within, covered_wall w.clocks (b + max_drift_millis + k) c.within w.published c.covered)
