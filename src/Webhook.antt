-- ===== src/Webhook.antt =====
-- include/smartthings4cpp/webhook.h: the requests and responses of the webhook.
use smartthings4cpp.Base.{ℕ, [], Option, Bytes, Bool}
use smartthings4cpp.Base.Trim.{lower}
use smartthings4cpp.Base.Dict
use smartthings4cpp.Base.Dict.{Dict}

pub record SubscriptionRequest : Type 0 where
  pub device_id : Bytes
  pub state_change_only : Bool
  pub subscription_name : Bytes

pub record Subscription : Type 0 where
  pub id : Bytes
  pub installed_app_id : Bytes
  pub source_type : Bytes
  pub device_id : Bytes
  pub capability : Bytes
  pub attribute : Bytes
  pub component_id : Bytes

abbrev pub empty_subscription : Subscription
empty_subscription = record {
  id = [];
  installed_app_id = [];
  source_type = [];
  device_id = [];
  capability = [];
  attribute = [];
  component_id = [];
}

pub data WebhookMessageType : Type 0 where
  unknown : WebhookMessageType
  ping : WebhookMessageType
  confirmation : WebhookMessageType
  configuration : WebhookMessageType
  install : WebhookMessageType
  update : WebhookMessageType
  event : WebhookMessageType
  uninstall : WebhookMessageType
  oauth_callback : WebhookMessageType

pub record WebhookRequest : Type 0 where
  pub method : Bytes
  pub path : Bytes
  pub body : Bytes
  pub headers : Dict Bytes

pub record WebhookResponse : Type 0 where
  pub status_code : ℕ
  pub body : Bytes
  pub message_type : WebhookMessageType

-- `WebhookRequest::header`
unfoldable pub header : WebhookRequest → Bytes → Option Bytes
header request name = Dict.lookup (lower name) request.headers
