-- ===== src/Auth/Access.antt =====
-- What a granted subscription lets a client read.
use rusquitto.Base.{
  ◌≡◌, inl, inr, true, false, Option, none, some, List, [], ◌∷◌, any, arith, Bool-cases,
  Option-cases,
}
use rusquitto.Base.Text.{Bytes, starts_with}
use rusquitto.Protocol.{dollar}
use rusquitto.Topics.Filter.{filter_matches, filter_subsumes}
use rusquitto.Topics.Filter.Laws.{filter_subsumes_sound}
use rusquitto.Config.Validate.{Crypto}
use rusquitto.Auth.{acl_allows_subscribe, Authenticator, known, authorize_subscribe}

-- Some rule of the list, where there is one, matches the topic.
abbrev pub Allows : Option (List Bytes) → Bytes → Type 0
Allows none topic = Unit
Allows (some rules) topic = any (λ rule. filter_matches rule topic) rules ≡ true

any_subsumes :
    (rules : List Bytes) (filter topic : Bytes)
    → any (λ rule. filter_subsumes rule filter) rules ≡ true
    → starts_with dollar topic ≡ false
    → filter_matches filter topic ≡ true
    → any (λ rule. filter_matches rule topic) rules ≡ true
any_subsumes [] filter topic h d m = h
any_subsumes (rule ∷ rules) filter topic h d m = elim (Bool-cases (filter_subsumes rule filter)) [
  | inl e ↦ ground (arith, filter_subsumes_sound rule filter topic e d m)
  | inr e ↦ ground (arith, any_subsumes rules filter topic (ground arith) d m)
]

acl_allows_subscribe_sound :
    (acl : Option (List Bytes)) (filter topic : Bytes)
    → acl_allows_subscribe acl filter ≡ true
    → starts_with dollar topic ≡ false
    → filter_matches filter topic ≡ true
    → Allows acl topic
unfolding acl_allows_subscribe
acl_allows_subscribe_sound none filter topic h d m = tt
acl_allows_subscribe_sound (some rules) filter topic h d m = any_subsumes rules filter topic h d m

module _ (crypto : Crypto) where
  -- The allow-list that holds for a client: of its user, or of the anonymous clients.
  abbrev pub subscribe_list : Authenticator crypto → Option Bytes → Option (List Bytes)
  subscribe_list a username = elim (known crypto a username) [
    | some entry ↦ entry.subscribe_acl
    | none ↦ a.anonymous_subscribe_acl
  ]

  -- A client that is granted a subscription reads nothing that its allow-list does not name: each
  -- topic that the granted filter matches is matched by a rule of the list, if there is a list, as
  -- long as the topic does not start with `$`.
  pub authorize_subscribe_sound :
      (a : Authenticator crypto) (username : Option Bytes) (filter topic : Bytes)
      → authorize_subscribe crypto a username filter ≡ true
      → starts_with dollar topic ≡ false
      → filter_matches filter topic ≡ true
      → Allows (subscribe_list a username) topic
  unfolding authorize_subscribe
  authorize_subscribe_sound a username filter topic h d m =
      elim (Option-cases (known crypto a username)) [
        | inl e ↦
            rw (subscribe_list, e)
              (acl_allows_subscribe_sound a.anonymous_subscribe_acl filter topic (ground arith) d m)
        | inr (entry, e) ↦
            rw (subscribe_list, e)
              (acl_allows_subscribe_sound entry.subscribe_acl filter topic (ground arith) d m)
      ]
