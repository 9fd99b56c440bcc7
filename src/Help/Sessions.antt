-- ===== src/Help/Sessions.antt =====
-- The page of a help session stays one of its pages (src/cluster/commands.cpp).
use stoatpp.Prelude.{
  ℕ, List, [], ◌∷◌, ◌<◌, ◌≡◌, refl, sym, ◌∙◌, Bool, Option, none, some, if◌then◌else◌, ◌&&◌, not,
  ltb, arith, Bool-cases, Option-cases, inl, inr, subst, ap,
}
use stoatpp.Text.{Text, text_eq}
use stoatpp.Dict.{Dict, lookup, insert, lookup-insert}
use stoatpp.Json.{JsonLib}
use stoatpp.Events.{Message, MessageReact}
use stoatpp.Help.Menu.{HelpSession, HelpState, turned, turn_page, on_help_sent, on_help_react}
use stoatpp.Help.Range.{page_left-lt, page_right-lt}

abbrev pub SessionsInRange : Dict HelpSession → Type 0
SessionsInRange sessions =
    (id : Text) (s : HelpSession) → lookup id sessions ≡ some s → s.current_page < s.max_pages

abbrev InSession : Option HelpSession → Type 0
InSession none = Unit
InSession (some s) = s.current_page < s.max_pages

insert-SessionsInRange :
    (k : Text) (t : HelpSession) (sessions : Dict HelpSession)
    → t.current_page < t.max_pages
    → SessionsInRange sessions
    → SessionsInRange (insert k t sessions)
insert-SessionsInRange k t sessions new old id s found =
    let either = sym (lookup-insert k id t sessions) ∙ found in
    elim (Bool-cases (text_eq k id)) [
      | inl e ↦
          subst InSession (sym (ap (λ b. if b then some t else lookup id sessions) e) ∙ either) new
      | inr e ↦ old id s (sym (ap (λ b. if b then some t else lookup id sessions) e) ∙ either)
    ]

module _ (J : JsonLib) where
  turned-lt :
      (s : HelpSession) (emoji_id : Text) (page : ℕ)
      → s.current_page < s.max_pages
      → turned J s emoji_id ≡ some page
      → page < s.max_pages
  unfolding turned
  turned-lt s emoji_id page h e =
      let left = page_left-lt s.max_pages s.current_page h in
      let right = page_right-lt s.max_pages s.current_page h in ground (arith, left, right, e)

  turn_page-SessionsInRange :
      (h : HelpState J) (s : HelpSession) (e : MessageReact) (o : Option ℕ)
      → ((page : ℕ) → o ≡ some page → page < s.max_pages)
      → SessionsInRange h.help_sessions
      → SessionsInRange (turn_page J h s e o).0.help_sessions
  turn_page-SessionsInRange h s e none below held = held
  turn_page-SessionsInRange h s e (some page) below held =
      insert-SessionsInRange e.id (record s { current_page = page }) h.help_sessions
        (below page refl) held

  -- No reaction, of whomever, to whichever message, leaves a session at a page that it does not have.
  pub on_help_react-SessionsInRange :
      (h : HelpState J) (e : MessageReact)
      → SessionsInRange h.help_sessions
      → SessionsInRange (on_help_react J h e).0.help_sessions
  unfolding on_help_react
  on_help_react-SessionsInRange h e held = elim (Option-cases (lookup e.id h.help_sessions)) [
    | inl unknown ↦ rw (on_help_react, unknown) held
    | inr (s, found) ↦
        let turns =
          turn_page-SessionsInRange h s e (turned J s e.emoji_id)
            (λ page. turned-lt s e.emoji_id page (held e.id s found)) held in
        elim (Bool-cases (text_eq e.user_id h.self_id)) [
          | inl own ↦ rw (on_help_react, found, own) held
          | inr other ↦ elim (Bool-cases (not (text_eq e.user_id s.user_id))) [
            | inl stranger ↦ rw (on_help_react, found, other, stranger) held
            | inr opener ↦ rw (on_help_react, found, other, opener) turns
          ]
        ]
  ]

  -- Nor does the answer to a `help`, whether it opens a session or not.
  pub on_help_sent-SessionsInRange :
      (h : HelpState J) (msg : Message J) (max_pages : ℕ) (res_id : Text) (success : Bool)
      → SessionsInRange h.help_sessions
      → SessionsInRange (on_help_sent J h msg max_pages res_id success).0.help_sessions
  unfolding on_help_sent
  on_help_sent-SessionsInRange h msg max_pages res_id success held =
      elim (Bool-cases (success && ltb 1 max_pages))
        as (λ _. SessionsInRange (on_help_sent J h msg max_pages res_id success).0.help_sessions) [
          | inl e ↦
              let several : 0 < max_pages = ground (arith, e) in
              rw e (insert-SessionsInRange res_id _ h.help_sessions several held)
          | inr e ↦ rw e held
        ]

  -- What changes the sessions, each under their lock: the answer to the page of a command `help` (with the number of
  -- pages, the id of the answer, and whether it was sent), and a reaction.
  pub data HelpAction : Type 0 where
    help_sent : Message J → ℕ → Text → Bool → HelpAction
    help_reacted : MessageReact → HelpAction

  abbrev pub help_act : HelpState J → HelpAction → HelpState J
  help_act h (help_sent msg max_pages res_id success) =
      (on_help_sent J h msg max_pages res_id success).0
  help_act h (help_reacted e) = (on_help_react J h e).0

  unfoldable pub help_run : HelpState J → List HelpAction → HelpState J
  help_run h [] = h
  help_run h (a ∷ actions) = help_run (help_act h a) actions

  help_act-SessionsInRange :
      (h : HelpState J) (a : HelpAction)
      → SessionsInRange h.help_sessions
      → SessionsInRange (help_act h a).help_sessions
  help_act-SessionsInRange h (help_sent msg max_pages res_id success) held =
      on_help_sent-SessionsInRange h msg max_pages res_id success held
  help_act-SessionsInRange h (help_reacted e) held = on_help_react-SessionsInRange h e held

  help_run-SessionsInRange :
      (h : HelpState J) (actions : List HelpAction)
      → SessionsInRange h.help_sessions
      → SessionsInRange (help_run h actions).help_sessions
  unfolding help_run
  help_run-SessionsInRange h [] held = held
  help_run-SessionsInRange h (a ∷ actions) held =
      help_run-SessionsInRange (help_act h a) actions (help_act-SessionsInRange h a held)

  -- After any answers to `help` and any reactions, of whomever, to whichever messages, in any order, each help session
  -- that a bot without sessions has come to shows one of its pages.
  pub help_run_page :
      (h : HelpState J) (actions : List HelpAction) (id : Text) (s : HelpSession)
      → h.help_sessions ≡ []
      → lookup id (help_run h actions).help_sessions ≡ some s
      → s.current_page < s.max_pages
  unfolding lookup
  help_run_page h actions id s fresh found =
      help_run-SessionsInRange h actions (subst SessionsInRange (sym fresh) (λ i t e. cc)) id s
        found
