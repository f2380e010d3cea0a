-- ===== src/Errors/Laws.antt =====
-- What wrapping and joining keep of an error.
use upcloud_operator.Prelude.{String, ◌≡◌, refl, true, false, ◌||◌, Option, none, some, arith}
use upcloud_operator.Errors.{
  Sentinel, Err, wrapped, errors_is, status_of, errors_join, is_not_found, is_conflict,
}

-- Wrapping with %w changes neither what errors.Is finds nor the HTTP status.
pub status_of-wrapped :
    (before after : String) (e : Err) → status_of (wrapped before e after) ≡ status_of e
unfolding status_of
status_of-wrapped before after e = refl

-- A joined error is found to be a sentinel exactly when one of its parts is.
pub errors_is-join :
    (t : Sentinel) (e : Err) (d : Option Err)
    → errors_is t (errors_join e d)
      ≡ (errors_is t e || (elim d [ none ↦ false | some c ↦ errors_is t c ]))
unfolding errors_is errors_join
errors_is-join t e none = ground arith
errors_is-join t e (some c) = refl

-- No error is both a missing resource and a conflict.
pub not_found-excludes-conflict : (e : Err) → is_not_found e ≡ true → is_conflict e ≡ false
unfolding is_not_found is_conflict
not_found-excludes-conflict e h = ground arith
