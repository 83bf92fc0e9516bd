-- ===== src/Auth/Tests.antt =====
-- Two users, and what they are granted.
use rusquitto.Base.{
  ◌≡◌, ◌≢◌, ◌↔◌, refl, true, none, some, [], ◌∷◌, nat_eq, list_eq, list_beq, arith, All,
}
use rusquitto.Base.Text.{Bytes, codes, split}
use rusquitto.Topics.Filter.{filter_matches, match_levels, filter_subsumes, subsumes_levels}
use rusquitto.Config.Tests.{toy, two_users, user, two_users-validate}
use rusquitto.Auth.{
  Authenticator, plain, ct_eq, diff_loop, from_config, collect, credential_from, entry_of, check,
  verify, granted, authorize_subscribe, acl_allows_subscribe,
}
use rusquitto.Auth.Credentials.{ct_eq_iff, from_config-validate, IsText}
use rusquitto.Auth.Access.{Allows, subscribe_list, authorize_subscribe_sound}

abbrev ann : Bytes
ann = codes "ann"

abbrev pub built : Authenticator toy
built = record {
  allow_anonymous = true;
  users =
      (ann, entry_of toy (user ann (codes "a1")) (plain (codes "a1")))
      ∷ (codes "bob", entry_of toy (user (codes "bob") (codes "b2")) (plain (codes "b2")))
      ∷ [];
  anonymous_publish_acl = none;
  anonymous_subscribe_acl = none;
  argon2_dummy = none;
}

pub two_users-built : from_config toy two_users.auth ≡ some built
unfolding from_config collect credential_from list_beq
two_users-built = refl

ct_eq_iff_example : (ct_eq ann (codes "a1") ≡ true) ↔ (ann ≡ codes "a1")
ct_eq_iff_example =
    ct_eq_iff ann (codes "a1") (omega arith, (omega arith, (omega arith, tt)))
      (omega arith, (omega arith, tt))

from_config-validate_example : from_config toy two_users.auth ≢ none
from_config-validate_example = from_config-validate toy two_users two_users-validate

pub texts : All IsText two_users.auth.users
texts = (((omega arith, (omega arith, tt)), tt), (((omega arith, (omega arith, tt)), tt), tt))

authorize_subscribe_sound_example : Allows (subscribe_list toy built (some ann)) (codes "home/hall")
unfolding authorize_subscribe acl_allows_subscribe filter_subsumes subsumes_levels filter_matches
    match_levels split list_beq
authorize_subscribe_sound_example =
    authorize_subscribe_sound toy built (some ann) (codes "home/+") (codes "home/hall") refl refl
      refl

check-ann : check toy built (some ann) (some (codes "a1")) ≡ granted
unfolding check verify ct_eq diff_loop list_beq
check-ann = refl
