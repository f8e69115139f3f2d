-- ===== src/Gateway/Users.antt =====
-- services/api-gateway/handlers/user_handler.go
use mini_databricks.Base.Text.{Text}
use mini_databricks.Db.{User}
use mini_databricks.World.{pure}
use mini_databricks.UserService.{register, login}
use mini_databricks.Gateway.Http.{
  Response, Handler, user_reply, token_reply, me_reply, respond, failed, answer, bind_json,
}
use mini_databricks.Gateway.Binding.{credentials, new_credentials}

abbrev pub registered : User → Response
registered u = respond 201 (user_reply u.id u.email u.role)

unfoldable pub handle_register : Handler
handle_register req ctx =
    bind_json new_credentials req
      (λ c. answer (failed 500) registered (register c.email c.password))

abbrev pub logged_in : Text → Response
logged_in token = respond 200 (token_reply token)

unfoldable pub handle_login : Text → Handler
handle_login secret req ctx =
    bind_json credentials req (λ c. answer (failed 401) logged_in (login c.email c.password secret))

unfoldable pub handle_me : Handler
handle_me req ctx = pure (respond 200 (me_reply ctx.user_id ctx.role))
