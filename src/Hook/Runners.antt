-- ===== src/Hook/Runners.antt =====
-- internal/hook/exec.go and internal/hook/webhook.go: what a hook runs or posts on an event. The
-- process, DNS and HTTP are arguments.
pub mod Safe
use kubeport.Prelude.{
  ℕ, ◌/◌, String, Bool, true, false, ◌&&◌, ◌||◌, not, Option, none, some, List, [], ◌∷◌, map, leb,
  ◌==◌, str_eq, if◌then◌else◌,
}
use kubeport.Prelude.GoLib.{GoLib}
use kubeport.Prelude.Table.{Table, lookup, insert}
use kubeport.Config.{WebhookConfig, is_empty}
use kubeport.Hook.{Event, matches_filter}
use kubeport.Hook.Template.{Texts, expand_vars, expand_vars_json}

-- execHook.OnEvent: the command and its arguments, unless the filter drops the event
unfoldable pub exec_on_event : Texts → List String → List String → Event → Option (List String)
exec_on_event t filter command e =
    if not (matches_filter filter e)
    then none
    else some (map (λ template. expand_vars t template e) command)

-- url.Parse (the scheme and the host), net.LookupHost, net.ParseIP (the four bytes of an IPv4
-- address, or sixteen), the canonical name of a header, the payload, and the answer to a POST
pub record Web : Type 0 where
  pub parse_url : String → Option (String × String)
  pub lookup_host : String → Option (List String)
  pub parse_ip : String → Option (List ℕ)
  pub canonical : String → String
  pub payload : Event → String
  pub post : String → Table String → String → Option ℕ

pub data WebhookError : Type 0 where
  invalid_url scheme_not_allowed metadata_address post_failed : WebhookError
  returned_status : ℕ → WebhookError

-- 169.254.0.0/16 and 100.64.0.0/10
unfoldable pub is_metadata_ip : List ℕ → Bool
is_metadata_ip (a ∷ b ∷ c ∷ d ∷ []) = (a == 169 && b == 254) || (a == 100 && b / 64 == 1)
is_metadata_ip _ = false

-- the loop over the addresses; one that cannot be parsed is passed over
unfoldable pub has_metadata_ip : Web → List String → Bool
has_metadata_ip web [] = false
has_metadata_ip web (text ∷ rest) =
    let later = has_metadata_ip web rest in
    elim (web.parse_ip text) [ none ↦ later | some ip ↦ is_metadata_ip ip || later ]

unfoldable pub validate_webhook_url : GoLib → Web → String → Option WebhookError
validate_webhook_url lib web url = elim (web.parse_url url) [
  | none ↦ some invalid_url
  | some (scheme, host) ↦
      if not (str_eq (lib.to_lower scheme) "http" || str_eq (lib.to_lower scheme) "https")
      then some scheme_not_allowed
      else elim (web.lookup_host host) [
        | none ↦ none
        | some ips ↦ if has_metadata_ip web ips then some metadata_address else none
      ]
]

-- the headers of the configuration, and a content type if there is none
unfoldable pub set_headers : Web → Table String → Table String → Table String
set_headers web [] header = header
set_headers web ((k, v) ∷ rest) header = set_headers web rest (insert (web.canonical k) v header)

unfoldable pub with_content_type : Table String → Table String
with_content_type header = elim (lookup "Content-Type" header) [
  | none ↦ insert "Content-Type" "application/json" header
  | some value ↦ if is_empty value then insert "Content-Type" "application/json" header else header
]

unfoldable pub webhook_body : Texts → Web → WebhookConfig → Event → String
webhook_body t web w e =
    if is_empty w.body_template then web.payload e else expand_vars_json t w.body_template e

-- what a webhook has posted, and its error
pub record Posted : Type 0 where
  pub posted : Option (String × Table String × String)
  pub error : Option WebhookError

-- webhookHook.OnEvent
unfoldable pub webhook_on_event : GoLib → Texts → Web → List String → WebhookConfig → Event → Posted
webhook_on_event lib t web filter w e =
    if not (matches_filter filter e)
    then record { posted = none; error = none }
    else elim (validate_webhook_url lib web w.url) [
      | some bad ↦ record { posted = none; error = some bad }
      | none ↦
          let header = with_content_type (set_headers web w.headers []) in
          let body = webhook_body t web w e in
          record {
            posted = some (w.url, header, body);
            error = elim (web.post w.url header body) [
              | none ↦ some post_failed
              | some status ↦ if leb 400 status then some (returned_status status) else none
            ];
          }
    ]
