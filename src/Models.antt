-- ===== src/Models.antt =====
-- backend/internal/models: the records behind the tables, and the constants that mirror the
-- CHECK comments of backend/migrations. A uuid is a number, a time counts nanoseconds, and
-- a nullable column is an `Option`.
use realstate_allan.Common.{ℕ, Bool, Option, List, String, Text}
use realstate_allan.Float.{Float64}

abbrev pub role_super_admin : String
role_super_admin = "SUPER_ADMIN"

abbrev pub role_broker : String
role_broker = "BROKER"

abbrev pub role_client : String
role_client = "CLIENT"

abbrev pub listing_category_buying : String
listing_category_buying = "BUYING"

abbrev pub listing_category_selling : String
listing_category_selling = "SELLING"

abbrev pub property_type_plot : String
property_type_plot = "PLOT"

abbrev pub property_type_shop : String
property_type_shop = "SHOP"

abbrev pub property_type_flat : String
property_type_flat = "FLAT"

abbrev pub property_type_other : String
property_type_other = "OTHER"

abbrev pub photo_status_pending : String
photo_status_pending = "PENDING"

abbrev pub photo_status_confirmed : String
photo_status_confirmed = "CONFIRMED"

abbrev pub job_status_pending : String
job_status_pending = "PENDING"

abbrev pub job_status_sent : String
job_status_sent = "SENT"

abbrev pub job_status_failed : String
job_status_failed = "FAILED"

abbrev pub job_type_stale_listing : String
job_type_stale_listing = "STALE_LISTING"

abbrev pub ocr_status_pending : String
ocr_status_pending = "PENDING"

abbrev pub ocr_status_done : String
ocr_status_done = "DONE"

abbrev pub ocr_status_failed : String
ocr_status_failed = "FAILED"

-- E-mail addresses are trimmed and lowered, so they are code points.
pub record User : Type 0 where
  pub id : ℕ
  pub email : Text
  pub password_hash : Option String
  pub google_id : Option String
  pub full_name : String
  pub role : String
  pub is_active : Bool
  pub created_at : ℕ
  pub updated_at : ℕ

pub record PublicUser : Type 0 where
  pub id : ℕ
  pub email : Text
  pub full_name : String
  pub role : String
  pub is_active : Bool
  pub created_at : ℕ

unfoldable pub to_public : User → PublicUser
to_public u = record {
  id = u.id;
  email = u.email;
  full_name = u.full_name;
  role = u.role;
  is_active = u.is_active;
  created_at = u.created_at;
}

pub record RefreshToken : Type 0 where
  pub id : ℕ
  pub user_id : ℕ
  pub token_hash : String
  pub expires_at : ℕ
  pub revoked : Bool
  pub created_at : ℕ

pub record Property : Type 0 where
  pub id : ℕ
  pub listing_category : String
  pub property_type : String
  pub owner_name : String
  pub owner_contact : String
  pub price : Float64
  pub plot_area : Option Float64
  pub built_up_area : Option Float64
  pub location_lat : Float64
  pub location_lng : Float64
  pub description : Option String
  pub tags : List String
  pub is_direct_owner : Bool
  pub assigned_broker_id : Option ℕ
  pub created_by : ℕ
  pub created_at : ℕ
  pub updated_at : ℕ
  pub deleted_at : Option ℕ

pub record PropertyPhoto : Type 0 where
  pub id : ℕ
  pub property_id : ℕ
  pub cdn_url : Text
  pub gcs_key : Text
  pub display_order : ℕ
  pub status : String
  pub created_at : ℕ

pub record NotificationJob : Type 0 where
  pub id : ℕ
  pub property_id : Option ℕ
  pub job_type : String
  pub status : String
  pub twilio_sid : Option String
  pub scheduled_at : Option ℕ
  pub sent_at : Option ℕ
  pub created_at : ℕ

-- map[string]string, at most one entry for a key.
abbrev pub OcrSuggestions : Type 0
OcrSuggestions = List (String × Text)

-- raw_text is nullable in the table.
pub record OcrResult : Type 0 where
  pub id : ℕ
  pub photo_id : ℕ
  pub property_id : ℕ
  pub raw_text : Option Text
  pub suggestions : OcrSuggestions
  pub status : String
  pub error : Option Text
  pub created_at : ℕ
  pub updated_at : ℕ

-- backend/internal/worker/client.go: the tasks that the queue holds, by their payload.
pub data Task : Type 0 where
  ocr_process_image : (photo_id property_id gcs_key : String) → Task
  notify_stale : (property_id : String) (owner_contact : Text) (days_unsold : ℕ) → Task
  notify_whatsapp notify_sms : (to message : Text) (notification_job_id : String) → Task
