-- ===== src/Services/Logs.antt =====
-- src/services.rs: the retained logs of a managed process.
use agent_runtime_sdk.Prelude.{
  ℕ, ◌+◌, ◌-◌, ◌≤◌, ◌<◌, ◌≡◌, refl, ap, sym, subst, eqb_iff, drop-nil, ◌∙◌, List, [], ◌∷◌, ◌++◌,
  if◌then◌else◌, eqb, drop, length, length-drop, length-snoc, drop-drop, drop-append_snoc,
  Bool-cases, inl, inr, arith, sym,
}
use mathlib.Core.List.{append_assoc, append-nil}
use agent_runtime_sdk.Services.Process.{ManagedProcessLogLine, ProcessEntry, push_line, send}

unfoldable pub push_all : ℕ → List ManagedProcessLogLine → ProcessEntry → ProcessEntry
push_all max_lines [] e = e
push_all max_lines (line ∷ lines) e = push_all max_lines lines (push_line max_lines line e)

-- The last lines of everything that was pushed.
abbrev pub tail : ℕ → List ManagedProcessLogLine → List ManagedProcessLogLine
tail max_lines history = drop (length history - max_lines) history

tail-push :
    (max_lines : ℕ) (history : List ManagedProcessLogLine) (line : ManagedProcessLogLine)
    → 0 < max_lines
    → let logs = tail max_lines history in
      (if eqb (length logs) max_lines then drop 1 logs else logs) ++ line ∷ []
      ≡ tail max_lines (history ++ line ∷ [])
tail-push max_lines history line positive =
    let k : ℕ = length history - max_lines in
    let kept = length-drop k history in
    let longer = length-snoc history line in
    elim (Bool-cases (eqb (length (drop k history)) max_lines)) [
      | inl full ↦
          let count : length (drop k history) ≡ max_lines =
            (eqb_iff (length (drop k history)) max_lines).0 full in
          let next : length (history ++ line ∷ []) - max_lines ≡ k + 1 =
            omega (arith, kept, longer, count) in
          rw full (
            rw (drop-drop k 1 history, next)
              (sym (drop-append_snoc (k + 1) history line (omega (arith, kept, count)))))
      | inr room ↦
          let few : length history < max_lines = ground (arith, kept) in
          let none_dropped : k ≡ 0 = omega (arith, few) in
          let next : length (history ++ line ∷ []) - max_lines ≡ 0 = omega (arith, longer, few) in
          rw room (rw (none_dropped, next) refl)
    ]

push_line-tail :
    (max_lines : ℕ) (history : List ManagedProcessLogLine) (line : ManagedProcessLogLine)
    (e : ProcessEntry)
    → 0 < max_lines
    → e.logs ≡ tail max_lines history
    → (push_line max_lines line e).logs ≡ tail max_lines (history ++ line ∷ [])
unfolding push_line send
push_line-tail max_lines history line e positive same =
    subst
      (λ logs.
        (if eqb (length logs) max_lines then drop 1 logs else logs) ++ line ∷ []
        ≡ tail max_lines (history ++ line ∷ []))
      (sym same) (tail-push max_lines history line positive)

push_all-tail_from :
    (max_lines : ℕ) (history lines : List ManagedProcessLogLine) (e : ProcessEntry)
    → 0 < max_lines
    → e.logs ≡ tail max_lines history
    → (push_all max_lines lines e).logs ≡ tail max_lines (history ++ lines)
unfolding push_all
push_all-tail_from max_lines history [] e positive same =
    same ∙ ap (tail max_lines) (sym (append-nil history))
push_all-tail_from max_lines history (line ∷ lines) e positive same =
    push_all-tail_from max_lines (history ++ line ∷ []) lines (push_line max_lines line e) positive
      (push_line-tail max_lines history line e positive same)
    ∙ ap (tail max_lines) (append_assoc history (line ∷ []) lines)

-- The logs of a new process, after any lines of its two streams in any order, are the last of them in the order
-- pushed, as many as the limit, which is not zero, allows.
pub push_all-tail :
    (max_lines : ℕ) (lines : List ManagedProcessLogLine) (e : ProcessEntry)
    → 0 < max_lines
    → e.logs ≡ []
    → ((push_all max_lines lines e).logs ≡ tail max_lines lines)
      × (length (push_all max_lines lines e).logs ≤ max_lines)
push_all-tail max_lines lines e positive fresh =
    let kept : (push_all max_lines lines e).logs ≡ tail max_lines lines =
      push_all-tail_from max_lines [] lines e positive
        (fresh ∙ sym (drop-nil ManagedProcessLogLine (0 - max_lines))) in
    (kept, rw kept (omega (arith, length-drop (length lines - max_lines) lines)))
