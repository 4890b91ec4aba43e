-- ===== src/Tests/Accounts.antt =====
-- Witnesses for licenses, sessions and what the service reads of a request.
use nexguard.Prelude.{ℕ, List, ◌*◌, ◌≡◌, refl, [], ◌∷◌, ◌++◌, some, none, arith}
use nexguard.Prelude.Text.{Text, codes, text_eq, trim_space}
use nexguard.Exec.{ok}
use nexguard.World.{next_outcome, later_outcomes}
use nexguard.Web.World.{bytes_from, hex_encode, nanos}
use nexguard.Web.License.{
  generate, fresh_key, fresh_group, group_of, key_of, upper_digit, store_license, is_taken,
  find_license, insert_license, validate, revoke, revoke_key, revoke_all_for_user, revoke_user,
  verdict,
}
use nexguard.Web.License.Refinement.{
  Operation, issue, withdraw, withdraw_all, perform_all, validate-perform_all,
}
use nexguard.Web.Sessions.{
  create_session, store_session, insert_unless, session_taken, find_session,
}
use nexguard.Web.Request.ClientIp.{client_ip, client_ip_of_proxy}
use nexguard.Tests.Billing.{backend, backend-IsCollation, service}

abbrev second_key : Text
second_key = codes "AVTOOL-0809-0A0B-0C0D-0E0F"

-- Three keys are issued; the first key and then all those of a user are revoked.
abbrev history : List Operation
history =
    issue 1
    ∷ issue 2
    ∷ issue 3
    ∷ withdraw (codes "AVTOOL-0001-0203-0405-0607")
    ∷ withdraw_all 3
    ∷ []

settled_calls : (perform_all backend history service).outcomes ≡ []
unfolding generate fresh_key fresh_group group_of key_of upper_digit store_license is_taken
    find_license bytes_from hex_encode text_eq next_outcome later_outcomes insert_license revoke
    revoke_key revoke_all_for_user revoke_user verdict
settled_calls = refl

validate-perform_all_example :
    (validate backend second_key (perform_all backend history service)).0 ≡ ok (some 2)
unfolding generate fresh_key fresh_group group_of key_of upper_digit store_license is_taken
    find_license bytes_from hex_encode text_eq next_outcome later_outcomes insert_license revoke
    revoke_key revoke_all_for_user revoke_user verdict
validate-perform_all_example =
    validate-perform_all backend backend-IsCollation history second_key service settled_calls

abbrev token : Text
token = codes "000102030405060708090a0b0c0d0e0f101112131415161718191a1b1c1d1e1f"

abbrev day : ℕ
day = 86400 * nanos

opened : (create_session backend 1 day service).0 ≡ ok token
unfolding create_session store_session insert_unless session_taken find_session bytes_from
    hex_encode next_outcome later_outcomes
opened = refl

opened_calls : (create_session backend 1 day service).1.outcomes ≡ []
unfolding create_session store_session insert_unless session_taken find_session bytes_from
    hex_encode next_outcome later_outcomes
opened_calls = refl

client_ip_of_proxy_example :
    client_ip
      (λ addr. none)
      (record { forwarded_for = codes "1.2.3.4" ++ b',' ∷ codes " 9.9.9.9"; remote_addr = [] })
    ≡ trim_space (codes " 9.9.9.9")
client_ip_of_proxy_example =
    client_ip_of_proxy (λ addr. none) (codes "1.2.3.4") (codes " 9.9.9.9") [] (ground arith)
