-- ===== src/Redis/Keys.antt =====
-- infrastructure_redis/src/keys.rs: the names of the keys. `show_uuid` prints a `Uuid`, and
-- `show_i32` an `i32`.
use smart_core_assistant_v.Prelude.{◌≡◌, refl, false, ◌++◌, Text, txt, text_eq}

unfoldable pub chave_tenant : {U : Type 0} → (U → Text) → U → Text → Text → Text
chave_tenant show_uuid tenant_id recurso chave =
    txt "tenant:" ++ (show_uuid tenant_id ++ (txt ":" ++ (recurso ++ (txt ":" ++ chave))))

unfoldable pub chave_flow_permissions : {U I : Type 0} → (U → Text) → (I → Text) → U → I → Text
chave_flow_permissions show_uuid show_i32 tenant_id user_id =
    txt "tenant:" ++ (show_uuid tenant_id ++ (txt ":flow_permissions:" ++ show_i32 user_id))

unfoldable pub chave_refresh : Text → Text
chave_refresh token_hash = txt "auth:refresh:" ++ token_hash

unfoldable pub chave_refresh_familia : Text → Text
chave_refresh_familia family_id = txt "auth:refresh_family:" ++ family_id

unfoldable pub chave_blocklist : Text → Text
chave_blocklist jti = txt "auth:blocklist:" ++ jti

-- The keys of two kinds are never equal, and two of one kind only at equal names.
pub text_eq-chave_refresh : (s t : Text) → text_eq (chave_refresh s) (chave_refresh t) ≡ text_eq s t
unfolding chave_refresh
text_eq-chave_refresh s t = refl

pub text_eq-chave_blocklist :
    (s t : Text) → text_eq (chave_blocklist s) (chave_blocklist t) ≡ text_eq s t
unfolding chave_blocklist
text_eq-chave_blocklist s t = refl

pub text_eq-familia-refresh :
    (s t : Text) → text_eq (chave_refresh_familia s) (chave_refresh t) ≡ false
unfolding chave_refresh chave_refresh_familia
text_eq-familia-refresh s t = refl

pub text_eq-refresh-familia :
    (s t : Text) → text_eq (chave_refresh s) (chave_refresh_familia t) ≡ false
unfolding chave_refresh chave_refresh_familia
text_eq-refresh-familia s t = refl

pub text_eq-blocklist-refresh : (s t : Text) → text_eq (chave_blocklist s) (chave_refresh t) ≡ false
unfolding chave_refresh chave_blocklist
text_eq-blocklist-refresh s t = refl

module _ {U I : Type 0} (show_uuid : U → Text) (show_i32 : I → Text) where
  pub text_eq-flow_permissions-refresh :
      (u : U) (i : I) (t : Text)
      → text_eq (chave_flow_permissions show_uuid show_i32 u i) (chave_refresh t) ≡ false
  unfolding chave_refresh chave_flow_permissions
  text_eq-flow_permissions-refresh u i t = refl

  pub text_eq-flow_permissions-blocklist :
      (u : U) (i : I) (t : Text)
      → text_eq (chave_flow_permissions show_uuid show_i32 u i) (chave_blocklist t) ≡ false
  unfolding chave_blocklist chave_flow_permissions
  text_eq-flow_permissions-blocklist u i t = refl
