-- ===== src/Gateway/Access.antt =====
-- Who gets through the gateway, in gateway.py.
use spark_controlplane.Prelude.{string_eq}
use spark_controlplane.Dict.{Dict}
use spark_controlplane.Text.{Text}
