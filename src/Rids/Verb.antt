-- ===== src/Rids/Verb.antt =====
-- The constants of type MethodType in v2/pkg/rids/pattern.go. Such a type is a Go string.
use spike_broker.Prelude.{Text, codes}

abbrev pub MethodType : Type 0
MethodType = Text

abbrev pub get : MethodType
get = codes "GET"

abbrev pub post : MethodType
post = codes "POST"

abbrev pub put : MethodType
put = codes "PUT"

abbrev pub patch : MethodType
patch = codes "PATCH"

abbrev pub delete : MethodType
delete = codes "DELETE"

abbrev pub internal : MethodType
internal = codes "INTERNAL"

abbrev pub event : MethodType
event = codes "EVENT"
