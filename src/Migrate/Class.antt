-- ===== src/Migrate/Class.antt =====
-- OpClass, Class and Mutates of internal/migrate/route.go.
use shunt.Base.{Str, str_eq, Bool, true, false, ◌&&◌, not}
use shunt.S3.Op.{Op}
use shunt.S3.Rules.{method_get, method_head, method_options}

pub data OpClass : Type 0 where
  read write delete list bucket upload service : OpClass

unfoldable pub class : Op → OpClass
class Op.upload_part = OpClass.upload
class Op.upload_part_copy = OpClass.upload
class Op.complete_multipart_upload = OpClass.upload
class Op.abort_multipart_upload = OpClass.upload
class Op.list_parts = OpClass.upload
class Op.get_object = OpClass.read
class Op.head_object = OpClass.read
class Op.get_object_acl = OpClass.read
class Op.get_object_attributes = OpClass.read
class Op.get_object_tagging = OpClass.read
class Op.get_object_legal_hold = OpClass.read
class Op.get_object_retention = OpClass.read
class Op.get_object_torrent = OpClass.read
class Op.select_object_content = OpClass.read
class Op.put_object = OpClass.write
class Op.copy_object = OpClass.write
class Op.post_object = OpClass.write
class Op.create_multipart_upload = OpClass.write
class Op.put_object_acl = OpClass.write
class Op.put_object_tagging = OpClass.write
class Op.put_object_legal_hold = OpClass.write
class Op.put_object_retention = OpClass.write
class Op.restore_object = OpClass.write
class Op.delete_object = OpClass.delete
class Op.delete_objects = OpClass.delete
class Op.delete_object_tagging = OpClass.delete
class Op.list_objects = OpClass.list
class Op.list_objects_v2 = OpClass.list
class Op.list_object_versions = OpClass.list
class Op.list_multipart_uploads = OpClass.list
class Op.list_buckets = OpClass.service
class _ = OpClass.bucket

-- Whether a method that is not of a reading class writes.
writes : Str → Bool
writes method =
    not (str_eq method method_get)
    && not (str_eq method method_head)
    && not (str_eq method method_options)

class_mutates : OpClass → Str → Bool
unfolding writes
class_mutates OpClass.write method = true
class_mutates OpClass.delete method = true
class_mutates OpClass.read method = false
class_mutates OpClass.list method = false
class_mutates OpClass.service method = false
class_mutates OpClass.bucket method = writes method
class_mutates OpClass.upload method = writes method

unfoldable pub mutates : Op → Str → Bool
unfolding class class_mutates
mutates op method = class_mutates (class op) method
