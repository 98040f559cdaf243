-- ===== src/S3/Rules.antt =====
-- internal/s3/classify.go: the classification table. Only the X-Amz-Copy-Source header is asked for.
use shunt.Base.{Str, lit, Bool, true, false, Option, none, some, List, [], ◌∷◌, ◌++◌}
use shunt.S3.Op.{Op}

pub data Level : Type 0 where
  service bucket object : Level

unfoldable pub level_eq : Level → Level → Bool
level_eq Level.service Level.service = true
level_eq Level.bucket Level.bucket = true
level_eq Level.object Level.object = true
level_eq _ _ = false

abbrev pub method_get : Str
method_get = lit "GET"

abbrev pub method_head : Str
method_head = lit "HEAD"

abbrev pub method_put : Str
method_put = lit "PUT"

abbrev pub method_post : Str
method_post = lit "POST"

abbrev pub method_delete : Str
method_delete = lit "DELETE"

abbrev pub method_options : Str
method_options = lit "OPTIONS"

-- One row of the table; copy_source stands for the header, the only one that rows name.
pub record Rule : Type 0 where
  pub method : Str
  pub level : Level
  pub query : List Str
  pub value : Option (Str × Str)
  pub copy_source : Bool
  pub op : Op

row : Str → Level → List Str → Option (Str × Str) → Bool → Op → Rule
row m l q v c o = record { method = m; level = l; query = q; value = v; copy_source = c; op = o }

record Subresource : Type 0 where
  key : Str
  get : Op
  put : Option Op
  d : Option Op

record Configured : Type 0 where
  key : Str
  get : Op
  list : Op
  put : Op
  d : Op

bucket_subresources : List Subresource
bucket_subresources =
    (record { key = lit "location"; get = Op.get_bucket_location; put = none; d = none })
    ∷ (record {
      key = lit "tagging";
      get = Op.get_bucket_tagging;
      put = some Op.put_bucket_tagging;
      d = some Op.delete_bucket_tagging;
    })
    ∷ (record {
      key = lit "ownershipControls";
      get = Op.get_bucket_ownership_controls;
      put = some Op.put_bucket_ownership_controls;
      d = some Op.delete_bucket_ownership_controls;
    })
    ∷ (record {
      key = lit "versioning";
      get = Op.get_bucket_versioning;
      put = some Op.put_bucket_versioning;
      d = none;
    })
    ∷ (record { key = lit "policyStatus"; get = Op.get_bucket_policy_status; put = none; d = none })
    ∷ (record {
      key = lit "policy";
      get = Op.get_bucket_policy;
      put = some Op.put_bucket_policy;
      d = some Op.delete_bucket_policy;
    })
    ∷ (record {
      key = lit "cors";
      get = Op.get_bucket_cors;
      put = some Op.put_bucket_cors;
      d = some Op.delete_bucket_cors;
    })
    ∷ (record {
      key = lit "object-lock";
      get = Op.get_object_lock_configuration;
      put = some Op.put_object_lock_configuration;
      d = none;
    })
    ∷ (record { key = lit "acl"; get = Op.get_bucket_acl; put = some Op.put_bucket_acl; d = none })
    ∷ (record { key = lit "uploads"; get = Op.list_multipart_uploads; put = none; d = none })
    ∷ (record { key = lit "versions"; get = Op.list_object_versions; put = none; d = none })
    ∷ (record {
      key = lit "encryption";
      get = Op.get_bucket_encryption;
      put = some Op.put_bucket_encryption;
      d = some Op.delete_bucket_encryption;
    })
    ∷ (record {
      key = lit "lifecycle";
      get = Op.get_bucket_lifecycle_configuration;
      put = some Op.put_bucket_lifecycle_configuration;
      d = some Op.delete_bucket_lifecycle;
    })
    ∷ (record {
      key = lit "logging";
      get = Op.get_bucket_logging;
      put = some Op.put_bucket_logging;
      d = none;
    })
    ∷ (record {
      key = lit "requestPayment";
      get = Op.get_bucket_request_payment;
      put = some Op.put_bucket_request_payment;
      d = none;
    })
    ∷ (record {
      key = lit "replication";
      get = Op.get_bucket_replication;
      put = some Op.put_bucket_replication;
      d = some Op.delete_bucket_replication;
    })
    ∷ (record {
      key = lit "publicAccessBlock";
      get = Op.get_public_access_block;
      put = some Op.put_public_access_block;
      d = some Op.delete_public_access_block;
    })
    ∷ (record {
      key = lit "notification";
      get = Op.get_bucket_notification_configuration;
      put = some Op.put_bucket_notification_configuration;
      d = none;
    })
    ∷ (record {
      key = lit "accelerate";
      get = Op.get_bucket_accelerate_configuration;
      put = some Op.put_bucket_accelerate_configuration;
      d = none;
    })
    ∷ (record {
      key = lit "website";
      get = Op.get_bucket_website;
      put = some Op.put_bucket_website;
      d = some Op.delete_bucket_website;
    })
    ∷ []

bucket_configured : List Configured
bucket_configured =
    (record {
      key = lit "analytics";
      get = Op.get_bucket_analytics_configuration;
      list = Op.list_bucket_analytics_configurations;
      put = Op.put_bucket_analytics_configuration;
      d = Op.delete_bucket_analytics_configuration;
    })
    ∷ (record {
      key = lit "intelligent-tiering";
      get = Op.get_bucket_intelligent_tiering_configuration;
      list = Op.list_bucket_intelligent_tiering_configurations;
      put = Op.put_bucket_intelligent_tiering_configuration;
      d = Op.delete_bucket_intelligent_tiering_configuration;
    })
    ∷ (record {
      key = lit "inventory";
      get = Op.get_bucket_inventory_configuration;
      list = Op.list_bucket_inventory_configurations;
      put = Op.put_bucket_inventory_configuration;
      d = Op.delete_bucket_inventory_configuration;
    })
    ∷ (record {
      key = lit "metrics";
      get = Op.get_bucket_metrics_configuration;
      list = Op.list_bucket_metrics_configurations;
      put = Op.put_bucket_metrics_configuration;
      d = Op.delete_bucket_metrics_configuration;
    })
    ∷ []

optional_row : Str → Str → Option Op → List Rule
unfolding row
optional_row m k none = []
optional_row m k (some o) = row m Level.bucket (k ∷ []) none false o ∷ []

configured_rows : List Configured → List Rule
unfolding row
configured_rows [] = []
configured_rows (c ∷ cs) =
    row method_get Level.bucket (c.key ∷ lit "id" ∷ []) none false c.get
    ∷ row method_get Level.bucket (c.key ∷ []) none false c.list
    ∷ row method_put Level.bucket (c.key ∷ []) none false c.put
    ∷ row method_delete Level.bucket (c.key ∷ []) none false c.d
    ∷ configured_rows cs

subresource_rows : List Subresource → List Rule
unfolding row optional_row
subresource_rows [] = []
subresource_rows (s ∷ ss) =
    row method_get Level.bucket (s.key ∷ []) none false s.get
    ∷ (optional_row method_put s.key s.put
        ++ (optional_row method_delete s.key s.d ++ subresource_rows ss))

plain_rows : List Rule
unfolding row
plain_rows =
    (row method_get Level.bucket ([]) (some (lit "list-type", lit "2")) false Op.list_objects_v2)
    ∷ (row method_get Level.bucket ([]) (none) false Op.list_objects)
    ∷ (row method_head Level.bucket ([]) (none) false Op.head_bucket)
    ∷ (row method_put Level.bucket ([]) (none) false Op.create_bucket)
    ∷ (row method_delete Level.bucket ([]) (none) false Op.delete_bucket)
    ∷ (row method_post Level.bucket (lit "delete" ∷ []) (none) false Op.delete_objects)
    ∷ (row method_post Level.bucket ([]) (none) false Op.post_object)
    ∷ (row method_get Level.object (lit "acl" ∷ []) (none) false Op.get_object_acl)
    ∷ (row method_get Level.object (lit "attributes" ∷ []) (none) false Op.get_object_attributes)
    ∷ (row method_get Level.object (lit "legal-hold" ∷ []) (none) false Op.get_object_legal_hold)
    ∷ (row method_get Level.object (lit "retention" ∷ []) (none) false Op.get_object_retention)
    ∷ (row method_get Level.object (lit "tagging" ∷ []) (none) false Op.get_object_tagging)
    ∷ (row method_get Level.object (lit "uploadId" ∷ []) (none) false Op.list_parts)
    ∷ (row method_get Level.object (lit "torrent" ∷ []) (none) false Op.get_object_torrent)
    ∷ (row method_get Level.object (lit "uploads" ∷ []) (none) false Op.unknown)
    ∷ (row method_get Level.object (lit "versions" ∷ []) (none) false Op.unknown)
    ∷ (row method_get Level.object ([]) (none) false Op.get_object)
    ∷ (row method_head Level.object ([]) (none) false Op.head_object)
    ∷ (row method_delete Level.object (lit "uploadId" ∷ []) (none) false Op.abort_multipart_upload)
    ∷ (row method_delete Level.object (lit "tagging" ∷ []) (none) false Op.delete_object_tagging)
    ∷ (row method_delete Level.object ([]) (none) false Op.delete_object)
    ∷ (row method_post Level.object (lit "uploads" ∷ []) (none) false Op.create_multipart_upload)
    ∷ (row method_post Level.object (lit "uploadId" ∷ []) (none) false Op.complete_multipart_upload)
    ∷ (row method_post Level.object (lit "restore" ∷ []) (none) false Op.restore_object)
    ∷ (row method_post Level.object (lit "select" ∷ []) (some (lit "select-type", lit "2")) false
        Op.select_object_content)
    ∷ (row method_put Level.object (lit "tagging" ∷ []) (none) false Op.put_object_tagging)
    ∷ (row method_put Level.object (lit "retention" ∷ []) (none) false Op.put_object_retention)
    ∷ (row method_put Level.object (lit "legal-hold" ∷ []) (none) false Op.put_object_legal_hold)
    ∷ (row method_put Level.object (lit "acl" ∷ []) (none) false Op.put_object_acl)
    ∷ (row method_put Level.object (lit "uploadId" ∷ lit "partNumber" ∷ []) (none) true
        Op.upload_part_copy)
    ∷ (row method_put Level.object (lit "uploadId" ∷ lit "partNumber" ∷ []) (none) false
        Op.upload_part)
    ∷ (row method_put Level.object ([]) (none) true Op.copy_object)
    ∷ (row method_put Level.object ([]) (none) false Op.put_object)
    ∷ []

-- The table, in order of precedence.
unfoldable pub rules : List Rule
unfolding row bucket_configured bucket_subresources configured_rows subresource_rows plain_rows
rules =
    row method_get Level.service [] none false Op.list_buckets
    ∷ (configured_rows bucket_configured ++ (subresource_rows bucket_subresources ++ plain_rows))
