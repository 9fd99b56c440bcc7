-- ===== src/Rest/Endpoints/Account.antt =====
-- The endpoints of src/rest.cpp for accounts, sessions, settings, as the requests that they make.
use stoatpp.Prelude.{Bool, ◌++◌, if◌then◌else◌}
use stoatpp.Text.{Text, lit}
use stoatpp.Json.{JsonLib}
use stoatpp.Rest.Exchange.{Request}
use stoatpp.Rest.Verbs.{get, post, patch, del}

module _ (J : JsonLib) where
  unfoldable pub get_user_settings : Request J
  get_user_settings = get J (lit "/sync/settings")

  unfoldable pub update_user_settings : J.Json → Request J
  update_user_settings delta = post J (lit "/sync/settings") delta

  unfoldable pub get_unread_channels : Request J
  get_unread_channels = get J (lit "/sync/unreads")

  unfoldable pub login_session : Text → Text → Text → Request J
  login_session email password friendly_name =
      let body : J.Json = J.null in
      let body = J.with_field body (lit "email") (J.of_text email) in
      let body = J.with_field body (lit "password") (J.of_text password) in
      let body = J.with_field body (lit "friendly_name") (J.of_text friendly_name) in
      post J (lit "/auth/session/login") body

  unfoldable pub logout_session : Request J
  logout_session = post J (lit "/auth/session/logout") J.null

  unfoldable pub get_all_sessions : Request J
  get_all_sessions = get J (lit "/auth/session/all")

  unfoldable pub delete_session : Text → Request J
  delete_session session_id = del J (lit "/auth/session/" ++ session_id) J.null

  unfoldable pub create_account : Text → Text → Request J
  create_account email password =
      let body : J.Json = J.null in
      let body = J.with_field body (lit "email") (J.of_text email) in
      let body = J.with_field body (lit "password") (J.of_text password) in
      post J (lit "/auth/account/create") body

  unfoldable pub verify_account : Text → Request J
  verify_account verification_token =
      let body : J.Json = J.null in
      let body = J.with_field body (lit "token") (J.of_text verification_token) in
      post J (lit "/auth/account/verify") body

  unfoldable pub reset_password : Text → Request J
  reset_password email =
      let body : J.Json = J.null in
      let body = J.with_field body (lit "email") (J.of_text email) in
      post J (lit "/auth/account/password/reset") body

  unfoldable pub delete_account : Request J
  delete_account = post J (lit "/auth/account/delete") J.null

  unfoldable pub verify_totp : Text → Text → Request J
  verify_totp mfa_token challenge_code =
      let body : J.Json = J.null in
      let body = J.with_field body (lit "token") (J.of_text mfa_token) in
      let body = J.with_field body (lit "code") (J.of_text challenge_code) in
      post J (lit "/auth/mfa/totp") body

  unfoldable pub use_mfa_ticket : Text → Text → Request J
  use_mfa_ticket ticket_id mfa_token =
      let body : J.Json = J.null in
      let body = J.with_field body (lit "ticket") (J.of_text ticket_id) in
      let body = J.with_field body (lit "token") (J.of_text mfa_token) in
      post J (lit "/auth/mfa/ticket") body

  unfoldable pub reset_password_apply : Text → Text → Request J
  reset_password_apply token new_password =
      let body : J.Json = J.null in
      let body = J.with_field body (lit "token") (J.of_text token) in
      let body = J.with_field body (lit "password") (J.of_text new_password) in
      patch J (lit "/auth/account/reset_password") body

  unfoldable pub change_password : Text → Text → Request J
  change_password current_password new_password =
      let body : J.Json = J.null in
      let body = J.with_field body (lit "current_password") (J.of_text current_password) in
      let body = J.with_field body (lit "new_password") (J.of_text new_password) in
      patch J (lit "/auth/account/change/password") body

  unfoldable pub change_email : Text → Text → Request J
  change_email current_password new_email =
      let body : J.Json = J.null in
      let body = J.with_field body (lit "current_password") (J.of_text current_password) in
      let body = J.with_field body (lit "new_email") (J.of_text new_email) in
      patch J (lit "/auth/account/change/email") body

  unfoldable pub delete_all_sessions : Bool → Request J
  delete_all_sessions revoke_self =
      let body : J.Json = J.null in
      let body = J.with_field body (lit "revoke_self") (J.of_bool revoke_self) in
      let path =
        lit "/auth/session/all?revoke_self=" ++ (if revoke_self then lit "true" else lit "false") in
      del J (path) body

  unfoldable pub get_mfa_methods : Request J
  get_mfa_methods = get J (lit "/auth/mfa/methods")

  unfoldable pub get_mfa_recovery_codes : Request J
  get_mfa_recovery_codes = get J (lit "/auth/mfa/recovery")

  unfoldable pub regenerate_mfa_recovery_codes : Request J
  regenerate_mfa_recovery_codes = post J (lit "/auth/mfa/recovery") J.null

  unfoldable pub get_onboarding_status : Request J
  get_onboarding_status = get J (lit "/onboard/hello")

  unfoldable pub complete_onboarding : Text → Request J
  complete_onboarding username =
      let body : J.Json = J.null in
      let body = J.with_field body (lit "username") (J.of_text username) in
      post J (lit "/onboard/complete") body
