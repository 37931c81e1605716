-- ===== src/Hook/Runners/Safe.antt =====
-- What a hook may run and where it may post.
use kubeport.Prelude.{◌≡◌, String, true, false, ◌||◌, some, List, arith, str_eq}
use kubeport.Prelude.GoLib.{GoLib}
use kubeport.Prelude.Table.{Table}
use kubeport.Config.{WebhookConfig}
use kubeport.Hook.{Event, matches_filter}
use kubeport.Hook.Template.{Texts}
use kubeport.Hook.Runners.{Web, has_metadata_ip, validate_webhook_url, webhook_on_event}

-- If a webhook posts, the event passes its filter, the scheme is http or https, and no address that
-- its host has is in the ranges of the metadata services.
pub webhook_on_event-allowed :
    (lib : GoLib) (t : Texts) (web : Web) (filter : List String) (w : WebhookConfig) (e : Event)
    (request : String × Table String × String)
    → (webhook_on_event lib t web filter w e).posted ≡ some request
    → (matches_filter filter e ≡ true)
      × ((scheme host : String)
          → web.parse_url w.url ≡ some (scheme, host)
          → ((str_eq (lib.to_lower scheme) "http" || str_eq (lib.to_lower scheme) "https") ≡ true)
            × ((ips : List String)
                → web.lookup_host host ≡ some ips
                → has_metadata_ip web ips ≡ false))
unfolding webhook_on_event validate_webhook_url
webhook_on_event-allowed lib t web filter w e request posts = (
  ground (arith, posts),
  λ scheme host parsed.
      (ground (arith, posts, parsed), λ ips found. ground (arith, posts, parsed, found)),
)
