-- ===== src/Relay/Accounts.antt =====
-- src/relay/mcp.rs: what a budget says of the messages that it accepted.
use agent_runtime_sdk.Prelude.{
  ℕ, ◌+◌, ◌≤◌, ◌<◌, ◌≡◌, refl, ap, ◌∙◌, List, [], ◌∷◌, ◌++◌, map, arith, inl, inr, length, select,
  Pairwise, All, leb, ltb, Bool-cases, length-append, All-append, All-map, Pairwise-append,
  select-append, Pairwise-select,
}
use agent_runtime_sdk.Prelude.Result.{Result, ok, err}
use agent_runtime_sdk.Prelude.Words.{saturating_add, usize_max, u32_max}
use agent_runtime_sdk.Relay.Message.{AgentMessage}
use agent_runtime_sdk.Relay.Grant.{AgentMessagingLimits}
use agent_runtime_sdk.Relay.Inbound.{AgentRelayError}
use agent_runtime_sdk.Relay.Bridge.{
  BridgeBudget, forget_old, check_budget, charge, validate_and_reserve,
}
use agent_runtime_sdk.Relay.Rate.{
  is_fresh, forget_old-select, select_fresh-later, KeepsRate, RateRoom, RateRoom-cases, rate-snoc,
}

-- An accepted message: its time and its length.
abbrev pub Accepted : Type 0
Accepted = ℕ × ℕ

abbrev pub times : List Accepted → List ℕ
times = map (λ a. a.0)

abbrev pub total : List Accepted → ℕ
total [] = 0
total (a ∷ log) = a.1 + total log

-- The messages of a turn in the order of the calls, with the times of the calls.
pub record Attempt (V : Type 0) : Type 0 where
  pub now : ℕ
  pub message : AgentMessage V
  pub ttl_seconds : ℕ

module _ {V : Type 0} where
  abbrev pub log_attempt :
      Attempt V → Result AgentRelayError (Unit {0}) → List Accepted → List Accepted
  log_attempt a (ok _) log = log ++ (a.now, length a.message.content) ∷ []
  log_attempt a (err _) log = log

  -- The budget and the accepted messages after a sequence of attempts.
  unfoldable pub reserve_all :
      AgentMessagingLimits
      → List (Attempt V)
      → BridgeBudget × List Accepted
      → BridgeBudget × List Accepted
  reserve_all l [] s = s
  reserve_all l (a ∷ later) s =
      let (b, answer) = validate_and_reserve l a.now a.message a.ttl_seconds s.0 in
      reserve_all l later (b, log_attempt a answer s.1)

  -- The calls come in the order of a monotonic clock.
  abbrev pub InOrder : ℕ → List (Attempt V) → Type 0
  InOrder t [] = Unit
  InOrder t (a ∷ later) = (t ≤ a.now) × InOrder a.now later

pub record Accounts (l : AgentMessagingLimits) (t : ℕ) (b : BridgeBudget) (log : List Accepted)
    : Type 0 where
  pub counted : b.message_count ≡ length log
  pub summed : b.message_bytes ≡ total log
  pub pruned : ℕ
  pub pruned_before : pruned ≤ t
  pub recent : b.recent_messages ≡ select (is_fresh pruned) (times log)
  pub sorted : Pairwise (λ x y. x ≤ y) (times log)
  pub past : All (λ x. x ≤ t) (times log)
  pub in_count : length log ≤ l.max_messages_per_turn
  pub in_bytes : total log ≤ l.max_bytes_per_turn
  pub in_rate : KeepsRate l.max_messages_per_minute (times log)

abbrev pub RoomFor : AgentMessagingLimits → ℕ → BridgeBudget → Type 0
RoomFor l size b =
    (b.message_count < l.max_messages_per_turn)
    × (saturating_add usize_max b.message_bytes size ≤ l.max_bytes_per_turn)
    × RateRoom l.max_messages_per_minute (length b.recent_messages)

pub check_budget-RoomFor :
    (l : AgentMessagingLimits) (size : ℕ) (b : BridgeBudget)
    → check_budget l size b ≡ ok tt
    → RoomFor l size b
unfolding check_budget
check_budget-RoomFor l size b h = elim (Bool-cases (leb l.max_messages_per_turn b.message_count)) [
  | inl full ↦ absurd (let bad = rw full at h in cc)
  | inr counts ↦
      let h1 = rw counts at h in
      elim (Bool-cases (ltb l.max_bytes_per_turn (saturating_add usize_max b.message_bytes size))) [
        | inl full ↦ absurd (let bad = rw full at h1 in cc)
        | inr fits ↦
            let h2 = rw fits at h1 in
            elim (RateRoom-cases l.max_messages_per_minute (length b.recent_messages)) [
              | inl full ↦ absurd (let bad = rw full at h2 in cc)
              | inr (_, room) ↦ (ground arith, ground arith, room)
            ]
      ]
]

total-snoc : (log : List Accepted) (a : Accepted) → total (log ++ a ∷ []) ≡ total log + a.1
total-snoc [] a = omega arith
total-snoc (x ∷ log) a = omega (arith, total-snoc log a)

times-snoc : (log : List Accepted) (a : Accepted) → times (log ++ a ∷ []) ≡ times log ++ a.0 ∷ []
times-snoc [] a = refl
times-snoc (x ∷ log) a = ap (λ ys. x.0 ∷ ys) (times-snoc log a)

-- Accepting a message under the lock, when the checks passed.
pub charge-Accounts :
    (l : AgentMessagingLimits) (now size : ℕ) (b : BridgeBudget) (log : List Accepted)
    → l.max_messages_per_turn ≤ u32_max
    → l.max_bytes_per_turn < usize_max
    → (a : Accounts l now b log) → a.pruned ≡ now
    → RoomFor l size b
    → Accounts l now (charge now size b) (log ++ (now, size) ∷ [])
unfolding charge
charge-Accounts l now size b log small_count small_bytes a fresh room = record {
  counted = ground (arith, a.counted, length-append log ((now, size) ∷ []));
  summed = ground (arith, a.summed, total-snoc log (now, size));
  pruned = now;
  pruned_before = omega arith;
  recent =
      rw (times-snoc log (now, size), a.recent, fresh)
        (rw (select-append (is_fresh now) (times log) (now ∷ [])) (ground arith));
  sorted = rw (times-snoc log (now, size)) (
      Pairwise-append (λ x y. x ≤ y) (times log) (now ∷ []) a.sorted (tt, tt)
        (All-map (λ x h. (h, tt)) (times log) a.past));
  past =
      rw (times-snoc log (now, size))
        (All-append (λ x. x ≤ now) (times log) (now ∷ []) a.past (omega arith, tt));
  in_count = ground (arith, a.counted, length-append log ((now, size) ∷ []));
  in_bytes = ground (arith, a.summed, total-snoc log (now, size));
  in_rate = rw (times-snoc log (now, size)) (
      rate-snoc l.max_messages_per_minute (times log) b.recent_messages now a.in_rate
        (rw fresh at a.recent) room.2);
}

-- Forgetting messages older than a minute.
pub forget_old-Accounts :
    (l : AgentMessagingLimits) (t now : ℕ) (b : BridgeBudget) (log : List Accepted)
    → Accounts l t b log
    → t ≤ now
    → (a : Accounts l now (record b { recent_messages = forget_old now b.recent_messages }) log)
      × (a.pruned ≡ now)
forget_old-Accounts l t now b log a h = (
  record {
    counted = a.counted;
    summed = a.summed;
    pruned = now;
    pruned_before = omega arith;
    recent = rw a.recent (
        forget_old-select now _ (Pairwise-select _ (is_fresh a.pruned) (times log) a.sorted)
        ∙ select_fresh-later a.pruned now (times log) (let e = a.pruned_before in omega arith));
    sorted = a.sorted;
    past = All-map (λ x e. omega arith) (times log) a.past;
    in_count = a.in_count;
    in_bytes = a.in_bytes;
    in_rate = a.in_rate;
  },
  refl,
)

pub wait-Accounts :
    (l : AgentMessagingLimits) (t now : ℕ) (b : BridgeBudget) (log : List Accepted)
    → Accounts l t b log
    → t ≤ now
    → Accounts l now b log
wait-Accounts l t now b log a h = record {
  counted = a.counted;
  summed = a.summed;
  pruned = a.pruned;
  pruned_before = (let e = a.pruned_before in omega arith);
  recent = a.recent;
  sorted = a.sorted;
  past = All-map (λ x e. omega arith) (times log) a.past;
  in_count = a.in_count;
  in_bytes = a.in_bytes;
  in_rate = a.in_rate;
}
