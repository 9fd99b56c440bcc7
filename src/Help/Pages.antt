-- ===== src/Help/Pages.antt =====
-- The pages of the help menu of src/cluster/commands.cpp show all commands.
use mathlib.Core.List.{Perm}
use mathlib.Core.List.Perm
use stoatpp.Prelude.{
  ℕ, zero, suc, ◌+◌, ◌*◌, ◌≤◌, ◌≡◌, refl, sym, ap, ◌∙◌, List, [], ◌∷◌, ◌++◌, arith, length, take,
  drop, drop-drop, drop_all, take-append-drop, length-take-le, Bool-cases, inl, inr, subst,
}
use stoatpp.Commands.State.{Command}
use stoatpp.Help.Menu.{text_less, insert_command, sorted_commands, page_count, page_commands}

-- The pages from one on, so many of them, one behind the other.
abbrev pub shown : List Command → ℕ → ℕ → List Command
shown cmds zero page = []
shown cmds (suc n) page = page_commands cmds page ++ shown cmds n (page + 1)

insert_command-Perm : (c : Command) (cmds : List Command) → Perm (insert_command c cmds) (c ∷ cmds)
insert_command-Perm c [] = Perm.refl (c ∷ [])
insert_command-Perm c (d ∷ cmds) = elim (Bool-cases (text_less d.name c.name)) [
  | inl e ↦ rw e (Perm.trans (Perm.cons d (insert_command-Perm c cmds)) (Perm.swap c d cmds))
  | inr e ↦ rw e (Perm.refl (c ∷ d ∷ cmds))
]

sorted_commands-Perm : (cmds : List Command) → Perm (sorted_commands cmds) cmds
unfolding sorted_commands
sorted_commands-Perm [] = Perm.refl []
sorted_commands-Perm (c ∷ cmds) =
    Perm.trans (insert_command-Perm c (sorted_commands cmds))
      (Perm.cons c (sorted_commands-Perm cmds))

length-insert_command :
    (c : Command) (cmds : List Command) → length (insert_command c cmds) ≡ 1 + length cmds
length-insert_command c [] = refl
length-insert_command c (d ∷ cmds) = elim (Bool-cases (text_less d.name c.name)) [
  | inl e ↦ rw e (omega (arith, length-insert_command c cmds))
  | inr e ↦ rw e (omega arith)
]

length-sorted_commands : (cmds : List Command) → length (sorted_commands cmds) ≡ length cmds
unfolding sorted_commands
length-sorted_commands [] = refl
length-sorted_commands (c ∷ cmds) =
    omega (arith, length-insert_command c (sorted_commands cmds), length-sorted_commands cmds)

page_count_enough : (size : ℕ) → size ≤ page_count size * 3
unfolding page_count
page_count_enough size = ground arith

shown-drop :
    (cmds : List Command) (n page : ℕ)
    → length cmds ≤ (page + n) * 3
    → shown cmds n page ≡ drop (page * 3) cmds
unfolding page_commands
shown-drop cmds zero page h = sym (drop_all (page * 3) cmds (omega (arith, h)))
shown-drop cmds (suc n) page h =
    let next : (page + 1) * 3 ≡ page * 3 + 3 = omega arith in
    ap (λ l. take 3 (drop (page * 3) cmds) ++ l)
      (shown-drop cmds n (page + 1) (omega (arith, h))
        ∙ ap (λ k. drop k cmds) next
        ∙ drop-drop (page * 3) 3 cmds)
    ∙ take-append-drop 3 (drop (page * 3) cmds)

-- The pages of the help menu, as many as it counts for the commands that are registered, show each of these once:
-- one behind the other they are the commands in another order. No page has more than three.
pub shown-Perm :
    (cmds : List Command)
    → Perm (shown (sorted_commands cmds) (page_count (length cmds)) 0) cmds
      × ((page : ℕ) → length (page_commands (sorted_commands cmds) page) ≤ 3)
unfolding page_commands
shown-Perm cmds =
    let sorted = sorted_commands cmds in
    let enough = page_count_enough (length cmds) in
    let all : shown sorted (page_count (length cmds)) 0 ≡ sorted =
      shown-drop sorted (page_count (length cmds)) 0
        (omega (arith, enough, length-sorted_commands cmds)) in
    (
      subst (λ l. Perm l cmds) (sym all) (sorted_commands-Perm cmds),
      (λ page. length-take-le 3 (drop (page * 3) sorted)),
    )
