-- ===== src/Firewall/Commands/Unique.antt =====
-- What `unique_commands` keeps.
use Prim.Native.Nat.{min}
use narsika.Base.{
  ℕ, String, Bool, true, false, List, [], ◌∷◌, count, contains, ◌==◌, text_eq, ◌≡◌, arith,
  Bool-cases, inl, inr, if◌then◌else◌,
}
use narsika.Firewall.Commands.{removes_acl, unique_from, unique_commands}

-- How often a command stands in a list.
abbrev pub occurrences : String → List String → ℕ
occurrences command commands = count (λ other. command == other) commands

-- At most one where the command removes a list, and none where it was seen before.
abbrev remaining : (removes seen : Bool) → ℕ → ℕ
remaining false seen n = n
remaining true true n = 0
remaining true false n = min 1 n

unique_from-occurrences :
    (command : String) (seen commands : List String)
    → occurrences command (unique_from seen commands)
      ≡ remaining (removes_acl command) (contains command seen) (occurrences command commands)
unfolding unique_from
unique_from-occurrences command seen [] = ground arith
unique_from-occurrences command seen (other ∷ commands) = elim (Bool-cases (command == other)) [
  | inl e ↦
      let same = (text_eq.same_iff command other).0 e in
      ground (
        arith,
        same,
        unique_from-occurrences command seen commands,
        unique_from-occurrences command (other ∷ seen) commands,
      )
  | inr e ↦ ground (
    arith,
    e,
    unique_from-occurrences command seen commands,
    unique_from-occurrences command (other ∷ seen) commands,
  )
]

-- unique_commands keeps every command as often as it stands in the list, except that the removal
-- of an access list is kept once.
pub unique_commands-occurrences :
    (command : String) (commands : List String)
    → occurrences command (unique_commands commands) ≡ (
        if removes_acl command
        then min 1 (occurrences command commands)
        else occurrences command commands)
unfolding unique_commands
unique_commands-occurrences command commands =
    ground (arith, unique_from-occurrences command [] commands)
