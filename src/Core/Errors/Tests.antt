-- ===== src/Core/Errors/Tests.antt =====
-- A code and a message on the wire.
use localdb.Prelude.{codes}
use localdb.Core.Errors.{model_missing, code, from_code}
use localdb.Core.Errors.Wire.{SameFace, from_code-SameFace}

from_code-SameFace_example :
    SameFace (model_missing (codes "m")) (from_code (code (model_missing (codes "m"))) (codes "n"))
from_code-SameFace_example = from_code-SameFace (model_missing (codes "m")) (codes "n")
