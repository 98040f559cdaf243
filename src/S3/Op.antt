-- ===== src/S3/Op.antt =====
-- internal/s3/op.go: the operations, named after the AWS API reference.
pub data Op : Type 0 where
  unknown preflight list_buckets create_bucket delete_bucket head_bucket list_objects : Op
  list_objects_v2 list_object_versions list_multipart_uploads delete_objects post_object : Op
  get_bucket_location get_bucket_acl put_bucket_acl get_bucket_cors put_bucket_cors : Op
  delete_bucket_cors get_bucket_lifecycle_configuration put_bucket_lifecycle_configuration : Op
  delete_bucket_lifecycle get_bucket_logging put_bucket_logging : Op
  get_bucket_notification_configuration put_bucket_notification_configuration : Op
  get_object_lock_configuration put_object_lock_configuration get_bucket_ownership_controls : Op
  put_bucket_ownership_controls delete_bucket_ownership_controls get_bucket_policy : Op
  put_bucket_policy delete_bucket_policy get_bucket_policy_status get_bucket_replication : Op
  put_bucket_replication delete_bucket_replication get_bucket_request_payment : Op
  put_bucket_request_payment get_bucket_tagging put_bucket_tagging delete_bucket_tagging : Op
  get_bucket_versioning put_bucket_versioning get_bucket_website put_bucket_website : Op
  delete_bucket_website get_bucket_encryption put_bucket_encryption : Op
  delete_bucket_encryption get_bucket_accelerate_configuration : Op
  put_bucket_accelerate_configuration get_public_access_block put_public_access_block : Op
  delete_public_access_block get_bucket_analytics_configuration : Op
  put_bucket_analytics_configuration delete_bucket_analytics_configuration : Op
  list_bucket_analytics_configurations get_bucket_intelligent_tiering_configuration : Op
  put_bucket_intelligent_tiering_configuration : Op
  delete_bucket_intelligent_tiering_configuration : Op
  list_bucket_intelligent_tiering_configurations get_bucket_inventory_configuration : Op
  put_bucket_inventory_configuration delete_bucket_inventory_configuration : Op
  list_bucket_inventory_configurations get_bucket_metrics_configuration : Op
  put_bucket_metrics_configuration delete_bucket_metrics_configuration : Op
  list_bucket_metrics_configurations get_object head_object put_object copy_object : Op
  delete_object get_object_acl put_object_acl get_object_attributes get_object_tagging : Op
  put_object_tagging delete_object_tagging get_object_legal_hold put_object_legal_hold : Op
  get_object_retention put_object_retention get_object_torrent restore_object : Op
  select_object_content create_multipart_upload upload_part upload_part_copy : Op
  complete_multipart_upload abort_multipart_upload list_parts : Op
