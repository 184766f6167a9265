-- ===== src/Db.antt =====
-- tftpos/db.py: the storage of provision records. `StorageBackend` is what every backend promises;
-- MemoryBackend and JSONBackend fill it in Db/Memory.antt and Db/JsonFile.antt, and the conversion
-- of a record to a JSON dict and back is in Db/Serial.antt.
pub mod Interface
pub mod Memory
pub mod Serial
pub mod Row
pub mod JsonFile
