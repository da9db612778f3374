-- ===== src/Client/Routed/Calls.antt =====
-- The function of src/server.c that a choice of a menu of src/client.c calls.
use banking_management_syste.Base.Text.{Text}
use banking_management_syste.Client.Terminal.{Terminal}
