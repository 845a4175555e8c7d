-- ===== src/Session/Places.antt =====
-- `getLocations` and `getRooms` of src/client.cpp.
use smartthings4cpp.Base.{List, [], ◌∷◌, ◌++◌, Option, Bytes, str, if◌then◌else◌, is_empty}
use smartthings4cpp.Json
use smartthings4cpp.Json.{JsonLib}
use smartthings4cpp.Http.{Cpr, Wire}
use smartthings4cpp.Storage.Provider.{StorageProvider}
use smartthings4cpp.Client.{Client}
use smartthings4cpp.Client.Sending.{Callback, Meanwhile}
use smartthings4cpp.Client.Pages.{fetch_all_items}

pub record Location : Type 0 where
  pub location_id : Bytes
  pub name : Bytes
  pub country_code : Bytes

pub record Room : Type 0 where
  pub room_id : Bytes
  pub location_id : Bytes
  pub name : Bytes

module _ {V : Type 0} (J : JsonLib V) where
  pub locations_of : List V → List Location
  locations_of [] = []
  locations_of (item ∷ items) =
      let rest = locations_of items in
      let location : Location = record {
        location_id = Json.get_text_or J item (str "locationId") [];
        name = Json.get_text_or J item (str "name") [];
        country_code = Json.get_text_or J item (str "countryCode") [];
      } in
      if is_empty location.location_id then rest else location ∷ rest

  pub rooms_of : Bytes → List V → List Room
  rooms_of location_id [] = []
  rooms_of location_id (item ∷ items) =
      let rest = rooms_of location_id items in
      let room : Room = record {
        room_id = Json.get_text_or J item (str "roomId") [];
        location_id = Json.get_text_or J item (str "locationId") location_id;
        name = Json.get_text_or J item (str "name") [];
      } in
      if is_empty room.room_id then rest else room ∷ rest

  module _ {S : Type 0} (P : StorageProvider S) (meanwhile : Meanwhile)
      (callback : Option (Callback S)) (cpr : Cpr) where
    pub get_locations : Client S → Wire → List Location × Client S × Wire
    get_locations c wire =
        let (items, c', wire') =
          fetch_all_items J P meanwhile callback cpr (str "/locations") c wire in
        (locations_of items, c', wire')

    pub get_rooms : Bytes → Client S → Wire → List Room × Client S × Wire
    get_rooms location_id c wire =
        if is_empty location_id
        then ([], c, wire)
        else (let (items, c', wire') =
              fetch_all_items J P meanwhile callback cpr
                (str "/locations/" ++ location_id ++ str "/rooms") c wire in
            (rooms_of location_id items, c', wire'))
