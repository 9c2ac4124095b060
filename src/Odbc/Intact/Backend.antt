-- ===== src/Odbc/Intact/Backend.antt =====
-- The ODBC backend under the library.
use prov_cpl.Prelude.{ℕ, List, some}
use prov_cpl.Api.Numbers.{Numbers}
use prov_cpl.Api.History.{Event, run, startup}
use prov_cpl.Api.Within.{Within, IsKept}
use prov_cpl.Api.Within.History.{AllFair, run-Within}
use prov_cpl.Odbc.Driver.{Driver}
use prov_cpl.Odbc.State.{Odbc}
use prov_cpl.Odbc.Interface.{cpl_odbc_backend}
use prov_cpl.Odbc.Intact.{IsIntact}
use prov_cpl.Odbc.Intact.Reconnect.{Reconnects}
use prov_cpl.Odbc.Intact.Calls.{
  create_object-Keeps, lookup_object-Keeps, lookup_object_ext-Keeps, add_relation-Keeps,
  add_object_property-Keeps, add_relation_property-Keeps, lookup_relation-Keeps, wildcard-Keeps,
  add_prefix-Keeps, get_session_info-Keeps, get_all_objects-Keeps, get_object_info-Keeps,
  get_object_relations-Keeps, get_object_properties-Keeps, lookup_object_by_property-Keeps,
  get_relation_properties-Keeps, get_bundle_objects-Keeps, get_bundle_relations-Keeps,
  get_prefixes-Keeps,
}

module _ {Conn Timestamp Ctx : Type 0} (d : Driver Conn Timestamp) (r : Reconnects d) where
  pub odbc_backend-IsKept : IsKept {Ctx = Ctx} (cpl_odbc_backend d) IsIntact
  odbc_backend-IsKept = record {
    create_object = λ s p n k h. create_object-Keeps d r p n k (some 0) s h;
    lookup_object = λ s p n k h. lookup_object-Keeps d r p n k (some 0) s h;
    lookup_object_ext = λ s p n k f it c h. lookup_object_ext-Keeps d r p n k f it c s h;
    add_relation = λ s a b k h. add_relation-Keeps d r a b k (some 0) s h;
    add_object_property = λ s i p n v k h. add_object_property-Keeps d r i p n v k s h;
    add_relation_property = λ s i p n v k h. add_relation_property-Keeps d r i p n v k s h;
    lookup_relation = λ s a b k out h. lookup_relation-Keeps d r a b k out s h;
    wildcard = λ s v out h. wildcard-Keeps d r v out s h;
    add_prefix = λ s i p t h. add_prefix-Keeps d r i p t s h;
    get_session_info = λ s i out h. get_session_info-Keeps d r i out s h;
    get_all_objects = λ s p f k it c h. get_all_objects-Keeps d r p f k it c s h;
    get_object_info = λ s i out h. get_object_info-Keeps d r i out s h;
    get_object_relations = λ s i e f it c h. get_object_relations-Keeps d r i e f it c s h;
    get_object_properties = λ s i p n k it c h. get_object_properties-Keeps d r i p n k it c s h;
    lookup_object_by_property =
        λ s p n v k it c h. lookup_object_by_property-Keeps d r p n v k it c s h;
    get_relation_properties =
        λ s i p n k it c h. get_relation_properties-Keeps d r i p n k it c s h;
    get_bundle_objects = λ s i it c h. get_bundle_objects-Keeps d r i it c s h;
    get_bundle_relations = λ s i it c h. get_bundle_relations-Keeps d r i it c s h;
    get_prefixes = λ s i p it c h. get_prefixes-Keeps d r i p it c s h;
  }

  -- If the driver connects and prepares whenever it is asked to, then through any history of the
  -- library over the ODBC backend, in which the backends that are attached are intact and no value
  -- that is looked up is NULL, the attached backend is intact: every pool holds the handles that the
  -- last connection allocated for its statement, each in its slot, and nothing has used an array that
  -- was freed. A call that waits for ever on the semaphore that is never initialised is followed as if
  -- it had not waited.
  pub history-IsIntact :
      {Double : Type 0} (numbers : Numbers Double) (es : List (Event (Odbc Conn) Ctx Double))
      (value : ℕ)
      → AllFair IsIntact es
      → Within IsIntact (run (cpl_odbc_backend d) numbers es (startup (Odbc Conn) value))
  unfolding startup
  history-IsIntact numbers es value f =
      run-Within (cpl_odbc_backend d) numbers IsIntact odbc_backend-IsKept es _ f tt
