-- ===== src/DocId/Tests.antt =====
-- Identifiers of events.
use ekanite.Prelude.{◌≡◌, refl, ◌&&◌, ◌||◌, ◌==◌, ltb, some, codes}
use ekanite.DocId.{pos, uint64, hex, id, less}
use ekanite.DocId.Chronology.{less-id}

id_of_small : id (pos 1234) (pos 10) ≡ codes "00000000000004d2000000000000000a"
unfolding id hex uint64
id_of_small = refl

less-id_example :
    less (id (pos 1234) (pos 10)) (id (pos 1234) (pos 11))
    ≡ some (
        ltb (uint64 (pos 1234)) (uint64 (pos 1234))
        || (uint64 (pos 1234) == uint64 (pos 1234) && ltb (uint64 (pos 10)) (uint64 (pos 11))))
less-id_example = less-id (pos 1234) (pos 10) (pos 1234) (pos 11)
