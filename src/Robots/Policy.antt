-- ===== src/Robots/Policy.antt =====
-- The parser keeps only rules that `allowed` can weigh, and only from groups for this agent.
use shadow_se.Base.{
  Bool, true, false, List, [], ◌∷◌, Bytes, codes, same_bytes, is_empty, trim, lower_ascii, ◌≡◌,
  refl, arith, All, All-append, Bool-cases, inl, inr,
}
use shadow_se.Robots.{
  Parse, flush_group, add_rule, parse_directive, parse_line, parse_lines, parse_start, parse_body,
  lines_from, strip_comment,
}
use shadow_se.Robots.Verdict.{HasPath}

-- Kept rules have a path, and outside a matching group nothing is pending.
record IsSound (p : Parse) : Type 0 where
  kept : All HasPath p.rules
  pending : All HasPath p.group
  idle : p.matching ≡ false → p.group ≡ []

flush_group-IsSound : (p : Parse) → IsSound p → IsSound (flush_group p)
unfolding flush_group
flush_group-IsSound p v = elim (Bool-cases p.matching) [
  | inl on ↦ rw on (record {
    kept = All-append HasPath p.rules p.group v.kept v.pending;
    pending = tt;
    idle = λ e. refl;
  })
  | inr off ↦ rw off (record { kept = v.kept; pending = v.pending; idle = λ e. v.idle off })
]

-- After a flush nothing is pending.
group-flush_group : (p : Parse) → IsSound p → (flush_group p).group ≡ []
unfolding flush_group
group-flush_group p v = elim (Bool-cases p.matching) [
  | inl on ↦ rw on
  | inr off ↦ rw off (v.idle off)
]

add_rule-IsSound :
    (allow : Bool) (value : Bytes) (p : Parse) → IsSound p → IsSound (add_rule allow value p)
unfolding add_rule
add_rule-IsSound allow [] p v = v
add_rule-IsSound allow (c ∷ value) p v = elim (Bool-cases p.matching) [
  | inl on ↦ rw on (record {
    kept = v.kept;
    pending = All-append HasPath p.group _ v.pending (omega arith, tt);
    idle = λ e. absurd (cc);
  })
  | inr off ↦ simp off v
]

agent-IsSound :
    (p : Parse) (b : Bool) → IsSound p → IsSound (record (flush_group p) { matching = b })
agent-IsSound p b v =
    let w = flush_group-IsSound p v in
    record { kept = w.kept; pending = w.pending; idle = λ e. group-flush_group p v }

parse_directive-IsSound :
    (our : Bytes) (kv : Bytes × Bytes) (p : Parse) → IsSound p → IsSound (parse_directive our kv p)
unfolding parse_directive
parse_directive-IsSound our (key, value) p v =
    elim (Bool-cases (same_bytes key (codes "user-agent"))) [
      | inl agent ↦ rw agent (agent-IsSound p _ v)
      | inr a ↦ rw a (elim (Bool-cases (same_bytes key (codes "allow"))) [
        | inl allow ↦ rw allow (add_rule-IsSound true value p v)
        | inr b ↦ rw b (elim (Bool-cases (same_bytes key (codes "disallow"))) [
          | inl disallow ↦ rw disallow (add_rule-IsSound false value p v)
          | inr other ↦ rw other v
        ])
      ])
    ]

parse_line-IsSound : (our raw : Bytes) (p : Parse) → IsSound p → IsSound (parse_line our raw p)
unfolding parse_line
parse_line-IsSound our raw p v = elim (Bool-cases (is_empty (trim (strip_comment raw)))) [
  | inl blank ↦ rw blank v
  | inr line ↦ rw line (parse_directive-IsSound our _ p v)
]

parse_lines-IsSound :
    (our : Bytes) (ls : List Bytes) (p : Parse) → IsSound p → IsSound (parse_lines our ls p)
unfolding parse_lines
parse_lines-IsSound our [] p v = v
parse_lines-IsSound our (l ∷ ls) p v = parse_lines-IsSound our ls _ (parse_line-IsSound our l p v)

-- Every rule that the parser keeps has a non-empty path, whatever the file holds.
pub parse_body-HasPath : (ua body : Bytes) → All HasPath (parse_body ua body).rules
unfolding parse_body
parse_body-HasPath ua body =
    let v =
      parse_lines-IsSound (lower_ascii ua) (lines_from [] body) parse_start
        (record { kept = tt; pending = tt; idle = λ e. refl }) in
    (flush_group-IsSound _ v).kept
