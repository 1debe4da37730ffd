-- ===== src/Db/SoftDelete/Laws.antt =====
-- soft_delete and restore of src/pf_core/db/soft_delete.py, one after the other.
